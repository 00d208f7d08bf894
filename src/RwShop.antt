-- ===== src/RwShop.antt =====
-- thread_C++/thread_lock_RW.cpp, the shop under a read-write lock: the seller takes it to write, the
-- boss to read. The places in the two loops are those of Shop.
pub mod Refines
mod Tests
use unix_ipc_note.Base.{ℕ, ◌+◌, ◌-◌, ◌<◌, ◌≡◌, ◌≢◌, Bool, true, false}
use unix_ipc_note.Shop.{
  goods_max, Selling, testing, locking, handing, cashing, unlocking, over, Checking, waiting,
  counting, summing, releasing, comparing, closed,
}

-- pthread_rwlock_t lock_VAL: whether a writer holds it, and how many readers do.
pub record RwLock : Type 0 where
  pub writer : Bool
  pub readers : ℕ

pub record RwShop : Type 0 where
  pub lock : RwLock
  pub goods : ℕ
  pub cash : ℕ
  pub goods_now : ℕ
  pub cash_now : ℕ
  pub sale : Selling
  pub check : Checking

pub data Step (s : RwShop) : RwShop → Type 0 where
  more : s.sale ≡ testing → s.goods ≢ 0 → Step s (record s { sale = locking })
  sold_out : s.sale ≡ testing → s.goods ≡ 0 → Step s (record s { sale = over })
  wrlock :
      s.sale ≡ locking
      → s.lock.writer ≡ false
      → s.lock.readers ≡ 0
      → Step s (record s { sale = handing; lock = record { writer = true; readers = 0 } })
  hand : s.sale ≡ handing → Step s (record s { sale = cashing; goods = s.goods - 1 })
  take_cash : s.sale ≡ cashing → Step s (record s { sale = unlocking; cash = s.cash + 10 })
  wrunlock :
      s.sale ≡ unlocking
      → Step s (record s { sale = testing; lock = record (s.lock) { writer = false } })
  rdlock :
      s.check ≡ waiting
      → s.lock.writer ≡ false
      → Step s
          (record s { check = counting; lock = record (s.lock) { readers = s.lock.readers + 1 } })
  count : s.check ≡ counting → Step s (record s { check = summing; goods_now = s.goods })
  sum : s.check ≡ summing → Step s (record s { check = releasing; cash_now = s.cash })
  rdunlock :
      s.check ≡ releasing
      → Step s
          (record s { check = comparing; lock = record (s.lock) { readers = s.lock.readers - 1 } })
  again : s.check ≡ comparing → s.goods_now ≢ 0 → Step s (record s { check = waiting })
  close : s.check ≡ comparing → s.goods_now ≡ 0 → Step s (record s { check = closed })

abbrev pub start : RwShop
start = record {
  lock = record { writer = false; readers = 0 };
  goods = goods_max;
  cash = 200;
  goods_now = 0;
  cash_now = 0;
  sale = testing;
  check = waiting;
}

pub data Reach : RwShop → Type 0 where
  here : Reach start
  next : {s t : RwShop} → Reach s → Step s t → Reach t
