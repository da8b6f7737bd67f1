-- ===== src/History/Sound.antt =====
-- The invariant over histories, and what reconciliation finds.
use distributed_wallet_ledge.Base.{refl, sym, subst}
use distributed_wallet_ledge.Base.Int.{pos, +ℤ_zero}
use distributed_wallet_ledge.Database.{Db}
use distributed_wallet_ledge.Invariant.{IsSound}
use distributed_wallet_ledge.Invariant.Operations.{
  deposit-IsSound, withdraw-IsSound, transfer-IsSound,
}
use distributed_wallet_ledge.Invariant.Creation.{create_wallet-IsSound, register-IsSound}
use distributed_wallet_ledge.Invariant.Events.{publish_round-IsSound, handle_event-IsSound}
use distributed_wallet_ledge.History.{
  empty, Step, History, registers, opens, deposits, withdraws, transfers, publishes, counts, here,
  next,
}

mutual
  Step-IsSound : {db db' : Db} → Step db db' → IsSound db → IsSound db'
  Step-IsSound {db} (registers others now hash id request h e) sound =
      subst IsSound (sym e)
        (register-IsSound hash id request now others db sound (History-IsSound h sound))
  Step-IsSound {db} (opens others now id owner request h e) sound =
      subst IsSound (sym e)
        (create_wallet-IsSound id owner request now others db sound (History-IsSound h sound))
  Step-IsSound {db} (deposits others now draws id user request h e) sound =
      subst IsSound (sym e)
        (deposit-IsSound draws id user now others db (History-IsSound h sound) request)
  Step-IsSound {db} (withdraws others now draws id user request key h e) sound =
      subst IsSound (sym e)
        (withdraw-IsSound draws id user now others db (History-IsSound h sound) sound request key)
  Step-IsSound {db} (transfers others now draws id user request key h e) sound =
      subst IsSound (sym e)
        (transfer-IsSound draws id user now others db (History-IsSound h sound) sound request key)
  Step-IsSound {db} (publishes deliver batch_size time now e) sound =
      subst IsSound (sym e) (publish_round-IsSound deliver batch_size time now db sound)
  Step-IsSound {db} (counts others now payload h e) sound =
      subst IsSound (sym e)
        (handle_event-IsSound payload now others db sound (History-IsSound h sound))

  pub History-IsSound : {db db' : Db} → History db db' → IsSound db → IsSound db'
  History-IsSound here sound = sound
  History-IsSound (next h s) sound = Step-IsSound s (History-IsSound h sound)

pub empty-IsSound : IsSound empty
empty-IsSound = record {
  balanced = tt;
  nonneg = tt;
  funded = +ℤ_zero (pos 0);
  unique = tt;
  double_entry = λ t. refl;
  references = tt;
  positive = tt;
  sequenced = tt;
  completed = tt;
  announced = tt;
  founded = tt;
}

-- Whatever requests are made, in whatever order they commit and whether they succeed or raise, and
-- whatever rounds of the publisher and deliveries to the analytics consumer come between, the
-- database that the migrations leave stays sound.
pub history-IsSound : {db : Db} → History empty db → IsSound db
history-IsSound h = History-IsSound h empty-IsSound
