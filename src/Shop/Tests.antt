-- ===== src/Shop/Tests.antt =====
-- A look at the books after one sale, and the theorems there.
use unix_ipc_note.Base.{ℕ, zero, suc, ◌≤◌, ◌+◌, ◌-◌, ◌*◌, ◌≡◌, refl, arith}
use unix_ipc_note.Shop.{
  nobody, testing, waiting, comparing, closed, Shop, more, sale_lock, hand, take_cash, sale_unlock,
  check_lock, count, sum, check_unlock, close, Reach, here, next,
}
use unix_ipc_note.Shop.Books.{books_balance}

-- One sale, and the boss has read both numbers.
abbrev looked : Shop
looked = record {
  holder = nobody;
  goods = 9999;
  cash = 210;
  goods_now = 9999;
  cash_now = 210;
  sale = testing;
  check = comparing;
}

looked-Reach : Reach looked
looked-Reach =
    let tested = next here (more refl (omega arith)) in
    let locked = next tested (sale_lock refl refl) in
    let handed = next locked (hand refl) in
    let paid = next handed (take_cash refl) in
    let unlocked = next paid (sale_unlock refl) in
    let held = next unlocked (check_lock refl refl) in
    let counted = next held (count refl) in
    let summed = next counted (sum refl) in next summed (check_unlock refl)

books_balance_example : ◌≡◌ {A = ℕ} 210 (200 + 10 * (10000 - 9999))
books_balance_example = books_balance looked-Reach refl

-- After `k` sales with no look at the books.
abbrev sold : ℕ → Shop
sold k = record {
  holder = nobody;
  goods = 10000 - k;
  cash = 200 + 10 * k;
  goods_now = 0;
  cash_now = 0;
  sale = testing;
  check = waiting;
}

sold-Reach : (k : ℕ) → k ≤ 10000 → Reach (sold k)
sold-Reach zero h = here
sold-Reach (suc k) h =
    let less : 10000 - suc k ≡ 10000 - k - 1 = omega arith in
    let paid : 200 + 10 * suc k ≡ 200 + 10 * k + 10 = omega arith in
    let tested = next (sold-Reach k (omega arith)) (more refl (omega arith)) in
    let locked = next tested (sale_lock refl refl) in
    let handed = next locked (hand refl) in
    let cashed = next handed (take_cash refl) in rw (less, paid) (next cashed (sale_unlock refl))

-- All is sold, and the boss has read both numbers and destroyed the lock.
abbrev closing : Shop
closing = record {
  holder = nobody;
  goods = 0;
  cash = 100200;
  goods_now = 0;
  cash_now = 100200;
  sale = testing;
  check = closed;
}

closing-Reach : Reach closing
closing-Reach =
    let all_sold : Reach (sold 10000) = sold-Reach 10000 (omega arith) in
    let held = next all_sold (check_lock refl refl) in
    let counted = next held (count refl) in
    let summed = next counted (sum refl) in
    let read = next summed (check_unlock refl) in next read (close refl refl)
