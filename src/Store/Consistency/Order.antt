-- ===== src/Store/Consistency/Order.antt =====
-- Rows in order: `ORDER BY position` leaves them, and `MAX(position) + 1` is their number.
use tile.Prelude.{
  length-append, count_up-append, ◌∙◌, sym, map-append, map-append, ◌++◌, ℕ, suc, ◌+◌, ◌≤◌, ◌≡◌,
  refl, Bool, List, [], ◌∷◌, map, arith, leb, le→leb, length, count_up, cons-head, cons-tail,
}
use mathlib.Core.Path.{ap, ap₂}
use native.Mathlib.Nat.{zero-add}
use tile.Store.Models.{HistoryItem}
use tile.Store.Tables.{order_by, insert_by, past_positions}

abbrev pub by_position : HistoryItem → HistoryItem → Bool
by_position a b = leb a.position b.position

abbrev positions_of : List HistoryItem → List ℕ
positions_of = map (λ row. row.position)

insert_least :
    (x : HistoryItem) (rows : List HistoryItem) (a : ℕ)
    → x.position ≡ a
    → positions_of rows ≡ count_up (suc a) (length rows)
    → insert_by by_position x rows ≡ x ∷ rows
unfolding insert_by
insert_least x [] a e h = refl
insert_least x (y ∷ rows) a e h =
    let next : y.position ≡ suc a = cons-head h in rw (le→leb x.position y.position (omega arith))

order_from :
    (rows : List HistoryItem) (a : ℕ)
    → positions_of rows ≡ count_up a (length rows)
    → order_by by_position rows ≡ rows
unfolding order_by
order_from [] a h = refl
order_from (x ∷ rows) a h =
    rw (order_from rows (suc a) (cons-tail h)) (insert_least x rows a (cons-head h) (cons-tail h))

pub order_sorted :
    (rows : List HistoryItem)
    → positions_of rows ≡ count_up 0 (length rows)
    → order_by by_position rows ≡ rows
order_sorted rows = order_from rows 0

past_from :
    (rows : List HistoryItem) (a : ℕ)
    → positions_of rows ≡ count_up a (length rows)
    → past_positions rows ≤ a + length rows
unfolding past_positions
past_from [] a h = omega arith
past_from (x ∷ rows) a h =
    let first : x.position ≡ a = cons-head h in omega (arith, past_from rows (suc a) (cons-tail h))

past_last :
    (x : HistoryItem) (rows : List HistoryItem) (a : ℕ)
    → x.position ≡ a
    → positions_of rows ≡ count_up (suc a) (length rows)
    → a + length (x ∷ rows) ≤ past_positions (x ∷ rows)
unfolding past_positions
past_last x [] a e h = omega arith
past_last x (y ∷ rows) a e h = omega (arith, past_last y rows (suc a) (cons-head h) (cons-tail h))

pub past_positions_lem :
    (rows : List HistoryItem)
    → positions_of rows ≡ count_up 0 (length rows)
    → past_positions rows ≡ length rows
past_positions_lem [] h = unfold past_positions in refl
past_positions_lem (x ∷ rows) h =
    omega (arith, past_from (x ∷ rows) 0 h, past_last x rows 0 (cons-head h) (cons-tail h))

-- Rows that go on where the positions end keep the order.
pub InOrder-append :
    (rows new : List HistoryItem)
    → positions_of rows ≡ count_up 0 (length rows)
    → positions_of new ≡ count_up (length rows) (length new)
    → positions_of (rows ++ new) ≡ count_up 0 (length (rows ++ new))
InOrder-append rows new h k =
    map-append (λ row. row.position) rows new
    ∙ ap₂ (λ a b. a ++ b) h (k ∙ ap (λ n. count_up n (length new)) (sym (zero-add (length rows))))
    ∙ sym (count_up-append 0 (length rows) (length new))
    ∙ ap (count_up 0) (sym (length-append rows new))
