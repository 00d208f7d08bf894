-- ===== src/Shop/Books.antt =====
-- The books of the shop.
use unix_ipc_note.Base.{◌+◌, ◌-◌, ◌*◌, ◌<◌, ◌≤◌, ◌≡◌, ◌≢◌, ◌⊎◌, arith}
use unix_ipc_note.Shop.{
  goods_max, seller, boss, Selling, testing, locking, handing, cashing, unlocking, over, Checking,
  waiting, counting, summing, releasing, comparing, closed, Shop, Step, more, sold_out, sale_lock,
  hand, take_cash, sale_unlock, check_lock, count, sum, check_unlock, again, close, start, Reach,
  here, next,
}

-- What the seller's place says of the holder, the goods and the books. Before the last coin is in,
-- the cash is ten short.
abbrev pub SaleFits : Selling → Shop → Type 0
SaleFits testing s = (s.holder ≢ seller) × (s.cash + 10 * s.goods ≡ 100200)
SaleFits locking s = (s.holder ≢ seller) × (0 < s.goods) × (s.cash + 10 * s.goods ≡ 100200)
SaleFits handing s = (s.holder ≡ seller) × (0 < s.goods) × (s.cash + 10 * s.goods ≡ 100200)
SaleFits cashing s = (s.holder ≡ seller) × (s.cash + 10 + 10 * s.goods ≡ 100200)
SaleFits unlocking s = (s.holder ≡ seller) × (s.cash + 10 * s.goods ≡ 100200)
SaleFits over s = (s.holder ≢ seller) × (s.goods ≡ 0) × (s.cash + 10 * s.goods ≡ 100200)

-- What the boss's place says of the holder and of what he has read.
abbrev pub CheckFits : Checking → Shop → Type 0
CheckFits waiting s = s.holder ≢ boss
CheckFits counting s = s.holder ≡ boss
CheckFits summing s = (s.holder ≡ boss) × (s.goods_now ≡ s.goods)
CheckFits releasing s =
    (s.holder ≡ boss) × (s.goods ≤ s.goods_now) × (s.cash_now + 10 * s.goods_now ≡ 100200)
CheckFits comparing s =
    (s.holder ≢ boss) × (s.goods ≤ s.goods_now) × (s.cash_now + 10 * s.goods_now ≡ 100200)
CheckFits closed s =
    (s.holder ≢ boss)
    × (s.goods ≤ s.goods_now)
    × (s.goods_now ≡ 0)
    × (s.cash_now + 10 * s.goods_now ≡ 100200)

-- Where the boss has counted no goods, the seller is done with the lock.
abbrev pub DoneFits : Checking → Shop → Type 0
DoneFits waiting s = Unit
DoneFits counting s = Unit
DoneFits _ s = (0 < s.goods_now) ⊎ (s.sale ≡ testing) ⊎ (s.sale ≡ over)

pub record Inv (s : Shop) : Type 0 where
  pub sale_fits : SaleFits s.sale s
  pub check_fits : CheckFits s.check s
  pub done_fits : DoneFits s.check s
  pub stock : (s.goods ≤ goods_max) × (s.goods_now ≤ goods_max)

start-Inv : Inv start
start-Inv = record {
  sale_fits = (λ e. cc, omega arith);
  check_fits = λ e. cc;
  done_fits = tt;
  stock = (omega arith, omega arith);
}

Step-sale : {s t : Shop} → Step s t → Inv s → SaleFits t.sale t
Step-sale {s} (more p q) inv = ground (arith, inv.sale_fits)
Step-sale {s} (sold_out p q) inv = ground (arith, inv.sale_fits)
Step-sale {s} (sale_lock p q) inv = ground (arith, inv.sale_fits)
Step-sale {s} (hand p) inv = ground (arith, inv.sale_fits)
Step-sale {s} (take_cash p) inv = ground (arith, inv.sale_fits)
Step-sale {s} (sale_unlock p) inv = ground (arith, inv.sale_fits)
Step-sale {s} (check_lock p q) inv = ground (arith, inv.sale_fits)
Step-sale {s} (count p) inv = ground (arith, inv.sale_fits)
Step-sale {s} (sum p) inv = ground (arith, inv.sale_fits)
Step-sale {s} (check_unlock p) inv = ground (arith, inv.sale_fits, inv.check_fits)
Step-sale {s} (again p q) inv = ground (arith, inv.sale_fits)
Step-sale {s} (close p q) inv = ground (arith, inv.sale_fits)

Step-check : {s t : Shop} → Step s t → Inv s → CheckFits t.check t
Step-check {s} (more p q) inv = ground (arith, inv.check_fits)
Step-check {s} (sold_out p q) inv = ground (arith, inv.check_fits)
Step-check {s} (sale_lock p q) inv = ground (arith, inv.check_fits)
Step-check {s} (hand p) inv = ground (arith, inv.check_fits, inv.sale_fits)
Step-check {s} (take_cash p) inv = ground (arith, inv.check_fits, inv.sale_fits)
Step-check {s} (sale_unlock p) inv = ground (arith, inv.check_fits, inv.sale_fits)
Step-check {s} (check_lock p q) inv = ground (arith, inv.check_fits)
Step-check {s} (count p) inv = ground (arith, inv.check_fits)
Step-check {s} (sum p) inv = ground (arith, inv.check_fits, inv.sale_fits)
Step-check {s} (check_unlock p) inv = ground (arith, inv.check_fits)
Step-check {s} (again p q) inv = ground (arith, inv.check_fits)
Step-check {s} (close p q) inv = ground (arith, inv.check_fits)

Step-done : {s t : Shop} → Step s t → Inv s → DoneFits t.check t
Step-done {s} (more p q) inv = ground (arith, inv.done_fits, inv.check_fits, inv.sale_fits)
Step-done {s} (sold_out p q) inv = ground (arith, inv.done_fits, inv.check_fits, inv.sale_fits)
Step-done {s} (sale_lock p q) inv = ground (arith, inv.done_fits, inv.check_fits, inv.sale_fits)
Step-done {s} (hand p) inv = ground (arith, inv.done_fits, inv.check_fits, inv.sale_fits)
Step-done {s} (take_cash p) inv = ground (arith, inv.done_fits, inv.check_fits, inv.sale_fits)
Step-done {s} (sale_unlock p) inv = ground (arith, inv.done_fits, inv.check_fits, inv.sale_fits)
Step-done {s} (check_lock p q) inv = ground (arith, inv.done_fits, inv.check_fits, inv.sale_fits)
Step-done {s} (count p) inv = ground (arith, inv.done_fits, inv.check_fits, inv.sale_fits)
Step-done {s} (sum p) inv = ground (arith, inv.done_fits, inv.check_fits, inv.sale_fits)
Step-done {s} (check_unlock p) inv = ground (arith, inv.done_fits, inv.check_fits, inv.sale_fits)
Step-done {s} (again p q) inv = ground (arith, inv.done_fits, inv.check_fits, inv.sale_fits)
Step-done {s} (close p q) inv = ground (arith, inv.done_fits, inv.check_fits, inv.sale_fits)

Step-stock : {s t : Shop} → Step s t → Inv s → (t.goods ≤ goods_max) × (t.goods_now ≤ goods_max)
Step-stock {s} (hand p) inv = omega (arith, inv.stock)
Step-stock {s} (count p) inv = omega (arith, inv.stock)
Step-stock {s} st inv = inv.stock

pub Reach-Inv : {s : Shop} → Reach s → Inv s
Reach-Inv here = start-Inv
Reach-Inv (next r st) = record {
  sale_fits = Step-sale st (Reach-Inv r);
  check_fits = Step-check st (Reach-Inv r);
  done_fits = Step-done st (Reach-Inv r);
  stock = Step-stock st (Reach-Inv r);
}

-- Whenever the boss compares, what he has read fits together: the 200 at the start and ten for each
-- of the goods that were gone when he counted.
pub books_balance :
    {s : Shop} → Reach s → s.check ≡ comparing → s.cash_now ≡ 200 + 10 * (goods_max - s.goods_now)
books_balance {s} r e = let inv = Reach-Inv r in ground (arith, inv.check_fits, inv.stock)

-- When the boss has destroyed the lock, all goods are sold, the cash is 100200 and is what he read,
-- and the seller is at the test that ends his loop or behind it, so that he does not touch the lock
-- again.
pub closed_when_done :
    {s : Shop}
    → Reach s
    → s.check ≡ closed
    → (s.goods ≡ 0)
      × (s.cash ≡ 100200)
      × (s.cash_now ≡ s.cash)
      × ((s.sale ≡ testing) ⊎ (s.sale ≡ over))
closed_when_done {s} r e =
    let inv = Reach-Inv r in ground (arith, inv.check_fits, inv.done_fits, inv.sale_fits)
