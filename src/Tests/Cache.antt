-- ===== src/Tests/Cache.antt =====
-- The balance cache with a server that keeps one key, the last that was set.
use distributed_wallet_ledge.Base.{
  ℕ, ◌≡◌, refl, ◌≢◌, ◌==◌, ==_iff, ◌⊎◌, inl, inr, Bool-cases, Bool, true, false, sym, ap, subst,
  ◌∙◌, Option, some, none, List, if◌then◌else◌,
}
use distributed_wallet_ledge.Database.{find_wallet, wallet_violation}
use distributed_wallet_ledge.Cache.{Client, Cached, cached_of, IsRedis}
use distributed_wallet_ledge.Repositories.Wallets.Locks.{contains}
use distributed_wallet_ledge.Api.{answer, create_wallet_route, transfer_route, get_balance_route}
use distributed_wallet_ledge.Api.Coherent.{IsCoherent, transfer_route-IsCoherent}
use distributed_wallet_ledge.Api.Coherent.Balance.{balance_answer, get_balance_route_lem}
use distributed_wallet_ledge.Api.Opened.{balance_of_read, get_balance_route-create_wallet_route}
use distributed_wallet_ledge.Base.Text.{text_eq, upper}
use distributed_wallet_ledge.Schema.{Wallet}
use distributed_wallet_ledge.Schema.Requests.{valid_wallet}
use distributed_wallet_ledge.Schema.Responses.{wallet_read}
use distributed_wallet_ledge.Session.{with_session, ◌>>=◌, attempt, commit}
use distributed_wallet_ledge.Repositories.Wallets.{create, get_by_user_and_currency, add_wallet}
use distributed_wallet_ledge.WalletService.{create_wallet}
use distributed_wallet_ledge.WalletService.Creation.{new_wallet}
use distributed_wallet_ledge.Tests.Accounts.{usd_wallet}
use distributed_wallet_ledge.Tests.Sample.{
  alice, draws, sample, same, funded_wallet, transfer_40, key,
}

abbrev Slot : Type 0
Slot = Option (ℕ × Cached)

abbrev slot_get : ℕ → Slot → Option (Option Cached)
slot_get k none = some none
slot_get k (some (j, p)) = some (if j == k then some p else none)

abbrev slot_delete : List ℕ → Slot → Option Slot
slot_delete ids none = some none
slot_delete ids (some (j, p)) = some (if contains j ids then none else some (j, p))

abbrev slot : Client Slot
slot = record { get = slot_get; setex = λ j ttl p s. some (some (j, p)); delete = slot_delete }

inner : {A : Type 0} (x y : A) → some x ≡ some y → x ≡ y
inner x y h = cc h

kept : (k j : ℕ) (p q : Cached) → slot_get k (some (j, q)) ≡ some (some p) → (k ≡ j) × (p ≡ q)
kept k j p q h = elim (Bool-cases (j == k)) [
  | inl e ↦ (sym ((==_iff j k).0 e), hit (j == k) e h)
  | inr e ↦ elim (miss (j == k) e h) [ ]
]
  where
    hit : (b : Bool) → b ≡ true → some (if b then some q else none) ≡ some (some p) → p ≡ q
    hit true e h = cc h
    hit false e h = cc e

    miss : (b : Bool) → b ≡ false → some (if b then some q else none) ≡ some (some p) → ⊥
    miss true e h = cc e
    miss false e h = cc h

slot-IsRedis : IsRedis slot
slot-IsRedis = record { get-delete = deletes; get-setex = sets }
  where
    sets :
        (j ttl k : ℕ) (p q : Cached) (s s' : Slot)
        → some (some (j, p)) ≡ some s'
        → slot_get k s' ≡ some (some q)
        → ((k ≡ j) × (q ≡ p)) ⊎ (slot_get k s ≡ some (some q))
    sets j ttl k p q s s' e h =
        inl (kept k j q p (subst (λ t. slot_get k t ≡ some (some q)) (sym (inner _ _ e)) h))

    deletes :
        (ids : List ℕ) (k : ℕ) (p : Cached) (s s' : Slot)
        → slot_delete ids s ≡ some s'
        → slot_get k s' ≡ some (some p)
        → (slot_get k s ≡ some (some p)) × (contains k ids ≡ false)
    deletes ids k p none s' e h =
        cc (subst (λ t. slot_get k t ≡ some (some p)) (sym (inner _ _ e)) h)
    deletes ids k p (some (j, q)) s' e h =
        let h' = subst (λ t. slot_get k t ≡ some (some p)) (sym (inner _ _ e)) h in
        elim (Bool-cases (contains j ids)) [
          | inl c ↦ elim (gone c h') [ ]
          | inr c ↦
              let there = still c h' in (there, ap (λ i. contains i ids) (kept k j p q there).0 ∙ c)
        ]
      where
        gone :
            contains j ids ≡ true
            → slot_get k (if contains j ids then none else some (j, q)) ≡ some (some p)
            → ⊥
        gone c h =
            cc (subst (λ b. slot_get k (if b then none else some (j, q)) ≡ some (some p)) c h)

        still :
            contains j ids ≡ false
            → slot_get k (if contains j ids then none else some (j, q)) ≡ some (some p)
            → slot_get k (some (j, q)) ≡ some (some p)
        still c h = subst (λ b. slot_get k (if b then none else some (j, q)) ≡ some (some p)) c h

slot_reached : (ids : List ℕ) (s : Slot) → slot_delete ids s ≢ none
slot_reached ids none e = cc e
slot_reached ids (some (j, p)) e = cc e

abbrev filled : Slot
filled = some (1, cached_of funded_wallet)

filled-IsCoherent : IsCoherent slot sample filled
filled-IsCoherent k p h =
    let (here, copy) = kept k 1 p (cached_of funded_wallet) h in
    (funded_wallet, ap (λ i. find_wallet i sample) here, copy)

transfer_route-IsCoherent_example :
    let (_, db', s') = transfer_route slot same 9 draws 1 alice transfer_40 key sample filled in
    IsCoherent slot db' s'
transfer_route-IsCoherent_example =
    transfer_route-IsCoherent slot slot-IsRedis slot_reached draws 1 alice 9 transfer_40 key sample
      filled filled-IsCoherent

get_balance_route_example :
    let (r, db', s') = get_balance_route slot same 9 30 1 alice sample filled in
    (r ≡ balance_answer slot alice (find_wallet 1 sample)) × (db' ≡ sample) × IsCoherent slot db' s'
get_balance_route_example =
    get_balance_route_lem slot slot-IsRedis 30 1 alice 9 sample filled filled-IsCoherent

abbrev usd_row : Wallet
usd_row = new_wallet 3 alice usd_wallet 9

usd_created :
    create_wallet_route same 9 3 alice usd_wallet sample
    ≡ (answer 201 (wallet_read usd_row), add_wallet usd_row sample)
unfolding create_wallet_route create_wallet with_session valid_wallet ◌>>=◌ get_by_user_and_currency
    text_eq upper create wallet_violation attempt commit
usd_created = refl

get_balance_route-create_wallet_route_example :
    let after = add_wallet usd_row sample in
    let (r, after', s') = get_balance_route slot same 10 30 3 alice after filled in
    (wallet_read usd_row ≡ wallet_read usd_row)
    × (r ≡ answer 200 (balance_of_read (wallet_read usd_row)))
    × (after' ≡ after)
    × IsCoherent slot after' s'
get_balance_route-create_wallet_route_example =
    get_balance_route-create_wallet_route 3 alice usd_wallet 9 slot slot-IsRedis 30 10 same
      (wallet_read usd_row) sample (add_wallet usd_row sample) filled filled-IsCoherent usd_created
