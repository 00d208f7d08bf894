-- ===== src/Shop.antt =====
-- The shop of thread_C++/thread_lock_mutex.cpp and thread_C++/thread_lock_RW.cpp: one thread sells
-- goods, another compares goods and cash. The first file guards them by a mutex, the second by a
-- read-write lock; with one writer and one reader both keep the two apart in the same way. A step is
-- one lock operation or one access to a shared variable.
pub mod Books
mod Tests
use unix_ipc_note.Base.{ℕ, zero, suc, ◌+◌, ◌-◌, ◌*◌, ◌<◌, ◌≡◌, ◌≢◌}

abbrev pub goods_max : ℕ
goods_max = 10000

-- Who holds lock_VAL.
pub data Holder : Type 0 where
  nobody : Holder
  seller : Holder
  boss : Holder

-- Where mythread_Buddy_selling stands.
pub data Selling : Type 0 where
  testing : Selling  -- at `while (goods)`
  locking : Selling
  handing : Selling  -- before --goods
  cashing : Selling  -- before cash += 10
  unlocking : Selling
  over : Selling

-- Where mythread_Boss_reconciliation stands.
pub data Checking : Type 0 where
  waiting : Checking  -- before the lock
  counting : Checking  -- before goods_now = goods
  summing : Checking  -- before cash_now = cash
  releasing : Checking
  comparing : Checking  -- the report, and at `if (goods_now == 0)`
  closed : Checking  -- the lock is destroyed

pub record Shop : Type 0 where
  pub holder : Holder
  pub goods : ℕ
  pub cash : ℕ
  pub goods_now : ℕ
  pub cash_now : ℕ
  pub sale : Selling
  pub check : Checking

pub data Step (s : Shop) : Shop → Type 0 where
  more : s.sale ≡ testing → s.goods ≢ 0 → Step s (record s { sale = locking })
  sold_out : s.sale ≡ testing → s.goods ≡ 0 → Step s (record s { sale = over })
  sale_lock :
      s.sale ≡ locking → s.holder ≡ nobody → Step s (record s { sale = handing; holder = seller })
  hand : s.sale ≡ handing → Step s (record s { sale = cashing; goods = s.goods - 1 })
  take_cash : s.sale ≡ cashing → Step s (record s { sale = unlocking; cash = s.cash + 10 })
  sale_unlock : s.sale ≡ unlocking → Step s (record s { sale = testing; holder = nobody })
  check_lock :
      s.check ≡ waiting → s.holder ≡ nobody → Step s (record s { check = counting; holder = boss })
  count : s.check ≡ counting → Step s (record s { check = summing; goods_now = s.goods })
  sum : s.check ≡ summing → Step s (record s { check = releasing; cash_now = s.cash })
  check_unlock : s.check ≡ releasing → Step s (record s { check = comparing; holder = nobody })
  again : s.check ≡ comparing → s.goods_now ≢ 0 → Step s (record s { check = waiting })
  close : s.check ≡ comparing → s.goods_now ≡ 0 → Step s (record s { check = closed })

abbrev pub start : Shop
start = record {
  holder = nobody;
  goods = goods_max;
  cash = 200;
  goods_now = 0;
  cash_now = 0;
  sale = testing;
  check = waiting;
}

pub data Reach : Shop → Type 0 where
  here : Reach start
  next : {s t : Shop} → Reach s → Step s t → Reach t
