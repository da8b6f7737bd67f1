-- ===== src/Invariant/Totals.antt =====
-- What an operation does to the rows of the wallets: their ids, their signs and their total.
use distributed_wallet_ledge.Base.{
  ◌≡◌, sym, subst, ap, ◌==◌, ==_iff, false, Bool-cases, inl, inr, some, List, [], ◌∷◌,
}
use distributed_wallet_ledge.Base.Int.{
  ℤ, pos, ◌+ℤ◌, ◌-ℤ◌, ◌≤ℤ◌, +ℤ_neg, pos_part, neg_part, int_laws,
}
use distributed_wallet_ledge.Base.Rows.{All, find, exists}
use distributed_wallet_ledge.Schema.{Wallet, debit}
use distributed_wallet_ledge.Database.{set_wallet}
use distributed_wallet_ledge.Reconciliation.{signed}
use distributed_wallet_ledge.Ledger.Transferred.{
  debited_wallet, credited_wallet, transferred_wallets,
}
use distributed_wallet_ledge.Invariant.{IsUnique, total_balance}
use distributed_wallet_ledge.Invariant.Rows.{
  All-set_wallet, exists-set_wallet, total_balance-set_wallet,
}

abbrev pub IsNonneg : Wallet → Type 0
IsNonneg w = pos 0 ≤ℤ w.available_balance

pub IsUnique-set_wallet :
    (x : Wallet) (rows : List Wallet) → IsUnique rows → IsUnique (set_wallet x rows)
IsUnique-set_wallet x [] h = tt
IsUnique-set_wallet x (r ∷ rows) h = elim (Bool-cases (r.id == x.id)) [
  | inl e ↦
      rw (e, exists-set_wallet x.id x rows)
        (
          subst (λ k. exists (λ q. q.id == k) rows ≡ false) ((==_iff r.id x.id).0 e) h.0,
          IsUnique-set_wallet x rows h.1,
        )
  | inr e ↦ rw (e, exists-set_wallet r.id x rows) (h.0, IsUnique-set_wallet x rows h.1)
]

pub IsNonneg-set_wallet :
    (x : Wallet) (rows : List Wallet)
    → IsNonneg x
    → All IsNonneg rows
    → All IsNonneg (set_wallet x rows)
IsNonneg-set_wallet x rows new = All-set_wallet IsNonneg IsNonneg x rows new (λ r ne h. h)

-- A leg of a debit moves a balance down.
pub debited : (a b : ℤ) → a -ℤ b ≡ a +ℤ signed debit b
debited a b = sym (+ℤ_neg a b)

-- The total and the system accounts move by opposite amounts.
pub funded_by :
    (t' t s w d n : ℤ)
    → t' +ℤ w ≡ t +ℤ (w +ℤ d)
    → d +ℤ n ≡ pos 0
    → t +ℤ s ≡ pos 0
    → t' +ℤ (n +ℤ s) ≡ pos 0
funded_by t' t s w d n e z f = omega (
  int_laws,
  ap pos_part e,
  ap neg_part e,
  ap pos_part z,
  ap neg_part z,
  ap pos_part f,
  ap neg_part f,
)

-- What one wallet gives, the other takes.
pub moved : (t'' t' t w r a : ℤ) → t' +ℤ w ≡ t +ℤ (w -ℤ a) → t'' +ℤ r ≡ t' +ℤ (r +ℤ a) → t'' ≡ t
moved t'' t' t w r a e f =
    omega (int_laws, ap pos_part e, ap neg_part e, ap pos_part f, ap neg_part f)

-- A transfer leaves the money in all wallets as it was.
pub transferred_total :
    (w r : Wallet) (a : ℤ) (rows : List Wallet)
    → IsUnique rows
    → find (λ q. q.id == w.id) rows ≡ some w
    → find (λ q. q.id == r.id) (set_wallet (debited_wallet w a) rows) ≡ some r
    → total_balance (transferred_wallets w r a rows) ≡ total_balance rows
transferred_total w r a rows unique ew er =
    let first = set_wallet (debited_wallet w a) rows in
    moved (total_balance (transferred_wallets w r a rows)) (total_balance first)
      (total_balance rows) w.available_balance r.available_balance a
      (total_balance-set_wallet (debited_wallet w a) w rows unique ew)
      (total_balance-set_wallet (credited_wallet r a) r first
        (IsUnique-set_wallet (debited_wallet w a) rows unique) er)
