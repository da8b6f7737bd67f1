-- ===== src/Api/Coherent/Balance.antt =====
-- GET /wallets/{wallet_id}/balance on a hit and on a miss.
use distributed_wallet_ledge.Base.{
  ℕ, ◌≡◌, refl, ap, subst, ◌∙◌, ◌==◌, inl, inr, not, true, false, Bool-cases, Option, some, none,
  Option-cases, if◌then◌else◌,
}
use distributed_wallet_ledge.Schema.{Wallet}
use distributed_wallet_ledge.Database.{Db, find_wallet}
use distributed_wallet_ledge.Session.{
  ok, err, with_session, wallet_not_found, wallet_access_denied, ◌>>=◌,
}
use distributed_wallet_ledge.Repositories.Wallets.{get_by_id}
use distributed_wallet_ledge.WalletService.{get_balance}
use distributed_wallet_ledge.Cache.{Client, Cached, cached_of, IsRedis, get, set}
use distributed_wallet_ledge.Repositories.Wallets.Locks.{same}
use distributed_wallet_ledge.Schema.Responses.{BalanceRead, balance_of_cached, balance_read}
use distributed_wallet_ledge.Api.{
  Response, answer, http_error, get_balance_route, on_miss, on_lookup,
}
use distributed_wallet_ledge.Api.Coherent.{IsCoherent}

module _ {S : Type 0} (client : Client S) where
  -- What the balance route owes, read from the row alone.
  abbrev pub balance_answer : ℕ → Option Wallet → Response BalanceRead
  balance_answer user none = http_error 404
  balance_answer user (some w) =
      if w.user_id == user then answer 200 (balance_read w) else http_error 404

  module _ (redis : IsRedis client) (ttl id user now : ℕ) (db : Db) (s : S)
      (h : IsCoherent client db s) where
    set-IsCoherent :
        (w : Wallet)
        → find_wallet id db ≡ some w
        → IsCoherent client db (set client ttl id (cached_of w) s)
    unfolding set
    set-IsCoherent w found = λ k p hit. elim (Option-cases (client.setex id ttl (cached_of w) s)) [
      | inl e ↦ h k p (stored s e hit)
      | inr (s', e) ↦ elim (redis.get-setex id ttl k (cached_of w) p s s' e (stored s' e hit)) [
        | inl (here, copy) ↦ (w, ap (λ j. find_wallet j db) here ∙ found, copy)
        | inr was ↦ h k p was
      ]
    ]
      where
        stored :
            {o : Option S} {k : ℕ} {p : Cached} (s' : S)
            → client.setex id ttl (cached_of w) s ≡ o
            → client.get k (elim (client.setex id ttl (cached_of w) s) [ none ↦ s | some t ↦ t ])
              ≡ some (some p)
            → client.get k (elim o [ none ↦ s | some t ↦ t ]) ≡ some (some p)
        stored {k = k} {p = p} s' e hit =
            subst (λ q. client.get k (elim q [ none ↦ s | some t ↦ t ]) ≡ some (some p)) e hit

    abbrev Owed : Response BalanceRead × Db × S → Type 0
    Owed (r, db', s') =
        (r ≡ balance_answer user (find_wallet id db)) × (db' ≡ db) × IsCoherent client db' s'

    read_missing :
        find_wallet id db ≡ none
        → with_session same now (get_balance id user) db ≡ (err (wallet_not_found id), db)
    unfolding get_balance get_by_id with_session ◌>>=◌
    read_missing e = rw e

    read_foreign :
        (w : Wallet)
        → find_wallet id db ≡ some w
        → (w.user_id == user) ≡ false
        → with_session same now (get_balance id user) db ≡ (err (wallet_access_denied id), db)
    unfolding get_balance get_by_id with_session ◌>>=◌
    read_foreign w e n = rw (e, n)

    read_own :
        (w : Wallet)
        → find_wallet id db ≡ some w
        → (w.user_id == user) ≡ true
        → with_session same now (get_balance id user) db ≡ (ok w, db)
    unfolding get_balance get_by_id with_session ◌>>=◌
    read_own w e n = rw (e, n)

    miss-Owed : Owed (on_miss client ttl id (with_session same now (get_balance id user) db) s)
    miss-Owed = elim (Option-cases (find_wallet id db)) [
      | inl e ↦ rw (read_missing e, e) (refl, refl, h)
      | inr (w, e) ↦ elim (Bool-cases (w.user_id == user)) [
        | inl n ↦ rw (read_own w e n, e, n) (refl, refl, set-IsCoherent w e)
        | inr n ↦ rw (read_foreign w e n, e, n) (refl, refl, h)
      ]
    ]

    lookup-Owed :
        (o : Option Cached)
        → ((p : Cached)
            → o ≡ some p
            → (w : Wallet) × (find_wallet id db ≡ some w) × (p ≡ cached_of w))
        → Owed (on_lookup client same now ttl id user db s o)
    lookup-Owed none held = miss-Owed
    lookup-Owed (some p) held =
        let (w, e, copy) = held p refl in
        (
          ap
                (λ (q : Cached).
                  if not (q.user_id == user)
                  then http_error 404
                  else answer 200 (balance_of_cached q))
                copy
              ∙ rw e (elim (Bool-cases (w.user_id == user)) [ inl n ↦ rw n | inr n ↦ rw n ]),
          refl,
          h,
        )

    -- With a cache that is a copy of the rows, the balance route answers, hit or miss, with the row
    -- of the wallet for its owner, and with one and the same 404 for a wallet that is missing and
    -- for one of another user; it changes no row, and the cache stays a copy.
    pub get_balance_route_lem :
        let (r, db', s') = get_balance_route client same now ttl id user db s in
        (r ≡ balance_answer user (find_wallet id db)) × (db' ≡ db) × IsCoherent client db' s'
    unfolding get_balance_route get
    get_balance_route_lem =
        lookup-Owed (elim (client.get id s) [ none ↦ none | some raw ↦ raw ])
          (λ p e. h id p (raw_hit p (client.get id s) e))
      where
        raw_hit :
            (p : Cached) (o : Option (Option Cached))
            → elim o [ none ↦ none | some raw ↦ raw ] ≡ some p
            → o ≡ some (some p)
        raw_hit p none e = cc e
        raw_hit p (some raw) e = ap some e
