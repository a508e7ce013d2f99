-- ===== src/Domain/Order/Total.antt =====
-- The order's total, `TotalAmount` of internal/domain/order/aggregate.go, against a sum of
-- unbounded numbers.
use code_base_ddd.Prelude.{
  ◌+◌, ◌*◌, ◌%◌, ◌<◌, ℕ, ◌≡◌, sym, ◌∙◌, ap, List, [], ◌∷◌, Perm, total, total-perm, arith,
}
use code_base_ddd.Int64.{modulus}
use code_base_ddd.Domain.Values.{Money, OrderItem, new_money, money_add, total_price}
use code_base_ddd.Domain.Order.{Order, total_from, total_amount}

-- What a line costs, with no wrap-around.
abbrev pub line_price : OrderItem → ℕ
line_price i = i.unit_price.amount * i.quantity

total_from-mod :
    (acc : Money) (items : List OrderItem)
    → (total_from acc items).amount % modulus ≡ (acc.amount + total line_price items) % modulus
unfolding total_from
total_from-mod acc [] = omega arith
total_from-mod acc (i ∷ items) = omega (arith, total_from-mod (money_add acc (total_price i)) items)

total_from-lt :
    (acc : Money) (items : List OrderItem)
    → acc.amount < modulus
    → (total_from acc items).amount < modulus
unfolding total_from
total_from-lt acc [] h = h
total_from-lt acc (i ∷ items) h = total_from-lt (money_add acc (total_price i)) items (omega arith)

pub total_amount-lt : (o : Order) → (total_amount o).amount < modulus
unfolding total_amount
total_amount-lt o = total_from-lt (new_money 0) o.items (omega arith)

-- The computed total is the sum of unit price times quantity over the lines, modulo 2^64,
-- whatever overflows on the way.
pub total_amount-mod : (o : Order) → (total_amount o).amount ≡ total line_price o.items % modulus
unfolding total_amount
total_amount-mod o =
    omega (arith, total_from-mod (new_money 0) o.items, total_from-lt (new_money 0) o.items)

-- If that sum is below 2^64, nothing is lost.
pub total_amount-exact :
    (o : Order)
    → total line_price o.items < modulus
    → (total_amount o).amount ≡ total line_price o.items
total_amount-exact o h = omega (arith, total_amount-mod o)

money_eq : {a b : Money} → a.amount ≡ b.amount → a ≡ b
money_eq e = λ i. record { amount = e i }

-- The total does not depend on the order of the lines.
pub total_amount-perm : (o l : Order) → Perm l.items o.items → total_amount l ≡ total_amount o
total_amount-perm o l h = money_eq (total_amount-mod l ∙ same ∙ sym (total_amount-mod o))
  where
    same : total line_price l.items % modulus ≡ total line_price o.items % modulus
    same = ap (λ n. n % modulus) (total-perm line_price h)
