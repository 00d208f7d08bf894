-- ===== src/RwShop/Tests.antt =====
-- The boss reads under the lock after one sale, and the theorem there.
use unix_ipc_note.Base.{refl, false, arith}
use unix_ipc_note.Shop
use unix_ipc_note.Shop.{testing, summing}
use unix_ipc_note.RwShop.{
  RwShop, Step, more, wrlock, hand, take_cash, wrunlock, rdlock, count, Reach, here, next,
}
use unix_ipc_note.RwShop.Refines.{as_shop, RwShop-refines}

abbrev reading : RwShop
reading = record {
  lock = record { writer = false; readers = 1 };
  goods = 9999;
  cash = 210;
  goods_now = 9999;
  cash_now = 0;
  sale = testing;
  check = summing;
}

reading-Reach : Reach reading
reading-Reach =
    let tested = next here (more refl (omega arith)) in
    let locked = next tested (wrlock refl refl refl) in
    let handed = next locked (hand refl) in
    let paid = next handed (take_cash refl) in
    let unlocked = next paid (wrunlock refl) in
    let held = next unlocked (rdlock refl refl) in next held (count refl)

RwShop-refines_example :
    Shop.Reach (as_shop reading)
    × ((t : RwShop) → Step reading t → Shop.Step (as_shop reading) (as_shop t))
RwShop-refines_example = RwShop-refines reading-Reach
