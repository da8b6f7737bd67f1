-- ===== src/Repositories/Wallets/Rules.antt =====
-- Rules in the style of Session/Rules for reading and adding wallets.
use distributed_wallet_ledge.Base.{ℕ, ◌≡◌, ==_refl, Option, none, some, inl, inr, Option-cases}
use distributed_wallet_ledge.Base.Text.{Text}
use distributed_wallet_ledge.Schema.{Wallet}
use distributed_wallet_ledge.Database.{Db, Violation, find_wallet, wallet_violation}
use distributed_wallet_ledge.Session.{Result, ok, err, refused, Session, Exec, ◌>>=◌}
use distributed_wallet_ledge.Session.Rules.{clean}
use distributed_wallet_ledge.Repositories.Wallets.{
  wallet_row, add_wallet, create, refresh_wallet, get_by_user_and_currency, wallet_of,
}
use distributed_wallet_ledge.Repositories.Wallets.Locks.{same}

module _ {B : Type 0} (Q : Result B × Session → Type 0) where
  pub get_by_user_and_currency_then :
      (owner : ℕ) (currency : Text) (f : Option Wallet → Exec B) (c w : Db) (o : Db → Db) (n : ℕ)
      → Q (f (wallet_of owner currency w) (clean c w o n))
      → Q ((get_by_user_and_currency owner currency >>= f) (clean c w o n))
  unfolding get_by_user_and_currency ◌>>=◌
  get_by_user_and_currency_then owner currency f c w o n h = h

  pub create_then :
      (id owner : ℕ) (currency : Text) (f : Wallet → Exec B) (db : Db) (others : Db → Db) (n : ℕ)
      → let row = wallet_row id owner currency n in
        let found = others db in
        ((v : Violation)
          → wallet_violation row found ≡ some v
          → Q (err (refused v), clean found found same n))
        → (wallet_violation row found ≡ none
            → Q (f row (clean found (add_wallet row found) same n)))
        → Q ((create id owner currency >>= f) (clean db db others n))
  unfolding create ◌>>=◌
  create_then id owner currency f db others n fail go =
      elim (Option-cases (wallet_violation (wallet_row id owner currency n) (others db))) [
        | inl e ↦ rw (e, ==_refl id) (go e)
        | inr (v, e) ↦ rw e (fail v e)
      ]

pub refresh_wallet_lem :
    (wallet row : Wallet) (c w : Db) (o : Db → Db) (n : ℕ)
    → find_wallet wallet.id w ≡ some row
    → refresh_wallet wallet (clean c w o n) ≡ (ok row, clean c w o n)
unfolding refresh_wallet ◌>>=◌
refresh_wallet_lem wallet row c w o n e = rw e
