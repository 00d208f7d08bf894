-- ===== src/RwShop/Refines.antt =====
-- The shop under the read-write lock does what the shop under the mutex does.
use mathlib.Core.Path.{subst}
use unix_ipc_note.Base.{ℕ, ◌+◌, ◌-◌, ◌≡◌, refl, Bool, true, false, ltb, if◌then◌else◌, arith}
use unix_ipc_note.Shop.{
  Holder, nobody, seller, boss, Selling, testing, locking, handing, cashing, unlocking, over,
  Checking, waiting, counting, summing, releasing, comparing, closed, Shop,
}
use unix_ipc_note.Shop
use unix_ipc_note.RwShop.{
  RwLock, RwShop, Step, more, sold_out, wrlock, hand, take_cash, wrunlock, rdlock, count, sum,
  rdunlock, again, close, start, Reach, here, next,
}

-- Who would hold the mutex.
abbrev pub holder_of : RwLock → Holder
holder_of l = if l.writer then seller else if ltb 0 l.readers then boss else nobody

abbrev pub as_shop : RwShop → Shop
as_shop s = record {
  holder = holder_of s.lock;
  goods = s.goods;
  cash = s.cash;
  goods_now = s.goods_now;
  cash_now = s.cash_now;
  sale = s.sale;
  check = s.check;
}

abbrev reading : Checking → ℕ
reading counting = 1
reading summing = 1
reading releasing = 1
reading _ = 0

abbrev writing : Selling → Bool
writing handing = true
writing cashing = true
writing unlocking = true
writing _ = false

-- The lock counts the one reader, and the writer, who are not inside together.
pub record LockFits (s : RwShop) : Type 0 where
  pub one_reader : s.lock.readers ≡ reading s.check
  pub the_writer : s.lock.writer ≡ writing s.sale
  pub apart : s.lock.writer ≡ true → s.lock.readers ≡ 0

Step-LockFits : {s t : RwShop} → Step s t → LockFits s → LockFits t
Step-LockFits {s} (more p q) inv = ground (arith, inv.one_reader, inv.the_writer, inv.apart)
Step-LockFits {s} (sold_out p q) inv = ground (arith, inv.one_reader, inv.the_writer, inv.apart)
Step-LockFits {s} (wrlock p q r) inv = ground (arith, inv.one_reader, inv.the_writer, inv.apart)
Step-LockFits {s} (hand p) inv = ground (arith, inv.one_reader, inv.the_writer, inv.apart)
Step-LockFits {s} (take_cash p) inv = ground (arith, inv.one_reader, inv.the_writer, inv.apart)
Step-LockFits {s} (wrunlock p) inv = ground (arith, inv.one_reader, inv.the_writer, inv.apart)
Step-LockFits {s} (rdlock p q) inv = ground (arith, inv.one_reader, inv.the_writer, inv.apart)
Step-LockFits {s} (count p) inv = ground (arith, inv.one_reader, inv.the_writer, inv.apart)
Step-LockFits {s} (sum p) inv = ground (arith, inv.one_reader, inv.the_writer, inv.apart)
Step-LockFits {s} (rdunlock p) inv = ground (arith, inv.one_reader, inv.the_writer, inv.apart)
Step-LockFits {s} (again p q) inv = ground (arith, inv.one_reader, inv.the_writer, inv.apart)
Step-LockFits {s} (close p q) inv = ground (arith, inv.one_reader, inv.the_writer, inv.apart)

-- A step of the shop under the mutex, with the new holder given by an equation.
module _ (s : RwShop) (inv : LockFits s) where
  free_lock : s.lock.writer ≡ false → s.lock.readers ≡ 0 → holder_of s.lock ≡ nobody
  free_lock w r = ground arith

  behind_writer : s.sale ≡ unlocking → nobody ≡ holder_of (record (s.lock) { writer = false })
  behind_writer p = ground (arith, inv.the_writer, inv.apart)

  with_reader :
      s.lock.writer ≡ false → boss ≡ holder_of (record (s.lock) { readers = s.lock.readers + 1 })
  with_reader w = ground arith

  behind_reader :
      s.check ≡ releasing → nobody ≡ holder_of (record (s.lock) { readers = s.lock.readers - 1 })
  behind_reader p = ground (arith, inv.one_reader, inv.apart)

simulates : {s t : RwShop} → Step s t → LockFits s → Shop.Step (as_shop s) (as_shop t)
simulates (more p q) inv = Shop.Step.more p q
simulates (sold_out p q) inv = Shop.Step.sold_out p q
simulates {s} (wrlock p w r) inv = Shop.Step.sale_lock p (free_lock s inv w r)
simulates (hand p) inv = Shop.Step.hand p
simulates (take_cash p) inv = Shop.Step.take_cash p
simulates {s} (wrunlock p) inv =
    subst (λ h. Shop.Step (as_shop s) (record (as_shop s) { sale = testing; holder = h }))
      (behind_writer s inv p) (Shop.Step.sale_unlock p)
simulates {s} (rdlock p w) inv =
    let no_reader : s.lock.readers ≡ 0 = ground (arith, inv.one_reader) in
    subst (λ h. Shop.Step (as_shop s) (record (as_shop s) { check = counting; holder = h }))
      (with_reader s inv w) (Shop.Step.check_lock p (free_lock s inv w no_reader))
simulates (count p) inv = Shop.Step.count p
simulates (sum p) inv = Shop.Step.sum p
simulates {s} (rdunlock p) inv =
    subst (λ h. Shop.Step (as_shop s) (record (as_shop s) { check = comparing; holder = h }))
      (behind_reader s inv p) (Shop.Step.check_unlock p)
simulates (again p q) inv = Shop.Step.again p q
simulates (close p q) inv = Shop.Step.close p q

start-LockFits : LockFits start
start-LockFits = record { one_reader = refl; the_writer = refl; apart = λ e. refl }

Reach-LockFits : {s : RwShop} → Reach s → LockFits s
Reach-LockFits here = start-LockFits
Reach-LockFits (next r st) = Step-LockFits st (Reach-LockFits r)

reaches : {s : RwShop} → Reach s → Shop.Reach (as_shop s)
reaches here = Shop.Reach.here
reaches (next r st) = Shop.Reach.next (reaches r) (simulates st (Reach-LockFits r))

-- Every step of the shop under the read-write lock, from a state that it reaches, is a step of the
-- shop under the mutex, between the states with the writer, or else the reader, as the holder; so what
-- it reaches, the other shop reaches too.
pub RwShop-refines :
    {s : RwShop}
    → Reach s
    → Shop.Reach (as_shop s) × ((t : RwShop) → Step s t → Shop.Step (as_shop s) (as_shop t))
RwShop-refines r = (reaches r, λ t st. simulates st (Reach-LockFits r))
