-- ===== src/Api/Opened.antt =====
-- POST /wallets, and then GET /wallets/{wallet_id}/balance of the new wallet.
use distributed_wallet_ledge.Base.{
  ℕ, ◌≡◌, refl, sym, ap, ◌∙◌, subst, ◌==◌, ==_iff, ==_refl, Bool, true, false, Bool-cases, inl, inr,
  Option, some, none,
}
use distributed_wallet_ledge.Base.Rows.{exists, exists_of_find}
use distributed_wallet_ledge.Schema.{Wallet}
use distributed_wallet_ledge.Schema.Requests.{WalletCreate, valid_wallet}
use distributed_wallet_ledge.Schema.Responses.{WalletRead, wallet_read, BalanceRead, balance_read}
use distributed_wallet_ledge.Database.{Db, find_wallet, wallet_violation}
use distributed_wallet_ledge.Session.{Result, ok, err, with_session}
use distributed_wallet_ledge.Cache.{Client, IsRedis}
use distributed_wallet_ledge.Repositories.Wallets.{add_wallet}
use distributed_wallet_ledge.Repositories.Wallets.Locks.{same}
use distributed_wallet_ledge.WalletService.{create_wallet}
use distributed_wallet_ledge.WalletService.Creation.{
  Creation, taken, rejected, created, new_wallet, create_wallet_outcome,
}
use distributed_wallet_ledge.Invariant.Creation.{id_is_new}
use distributed_wallet_ledge.Api.{
  Response, answer, http_error, unhandled, failure, create_code, create_wallet_route,
  get_balance_route,
}
use distributed_wallet_ledge.Api.Coherent.{IsCoherent}
use distributed_wallet_ledge.Api.Coherent.Balance.{balance_answer, get_balance_route_lem}

-- The balance that a creation shows.
abbrev pub balance_of_read : WalletRead → BalanceRead
balance_of_read w = record {
  id = w.id;
  currency = w.currency;
  available_balance = w.available_balance;
  locked_balance = w.locked_balance;
}

-- The end of POST /wallets.
abbrev creation_response : Result Wallet → Response WalletRead
creation_response r = elim r [ ok w ↦ answer 201 (wallet_read w) | err e ↦ failure create_code e ]

creation_response_ok :
    (r : Result Wallet) (shown : WalletRead)
    → creation_response r ≡ answer 201 shown
    → (w : Wallet) × (r ≡ ok w) × (shown ≡ wallet_read w)
creation_response_ok (ok w) shown h = (w, refl, cc h)
creation_response_ok (err e) shown h = elim (not_opened (create_code e) h) [ ]
  where
    not_opened :
        (code : Option ℕ)
        → elim code [ some n ↦ http_error n | none ↦ unhandled e ] ≡ answer 201 shown
        → ⊥
    not_opened none h = cc h
    not_opened (some n) h = cc h

module _ (id user : ℕ) (request : WalletCreate) (now : ℕ) where
  abbrev row : Wallet
  row = new_wallet id user request now

  created_row :
      (db db' : Db) (r : Result Wallet) (after : Db) (w : Wallet)
      → Creation id user request now db db' r after
      → r ≡ ok w
      → (w ≡ row) × (after ≡ add_wallet row db') × (wallet_violation row db' ≡ none)
  created_row db db' r after w (taken v found e _) h = cc (e, h)
  created_row db db' r after w (rejected v free why e _) h = cc (e, h)
  created_row db db' r after w (created free fits e written) h = (cc (e, h), written, fits)

  created_answer :
      (others : Db → Db) (shown : WalletRead) (db after : Db)
      → create_wallet_route others now id user request db ≡ (answer 201 shown, after)
      → let o = with_session others now (create_wallet id user request) db in
        (creation_response o.0 ≡ answer 201 shown) × (o.1 ≡ after)
  unfolding create_wallet_route
  created_answer others shown db after done = elim (Bool-cases (valid_wallet request)) [
    | inl v ↦
        let e = rw v at done in
        (ap (λ (x : Response WalletRead × Db). x.0) e, ap (λ (x : Response WalletRead × Db). x.1) e)
    | inr v ↦
        let e = rw v at done in elim (refused (ap (λ (x : Response WalletRead × Db). x.0) e)) [ ]
  ]
    where
      refused : {shown : WalletRead} → http_error 422 ≡ answer 201 shown → ⊥
      refused h = cc h

  module _ {S : Type 0} (client : Client S) where
    -- A new wallet is not in a cache that is a copy of the rows.
    add_wallet-IsCoherent :
        (db : Db) (s : S)
        → wallet_violation row db ≡ none
        → IsCoherent client db s
        → IsCoherent client (add_wallet row db) s
    add_wallet-IsCoherent db s fits h k p hit =
        let (w, found, copy) = h k p hit in
        elim (Bool-cases (id == k)) [
          | inr e ↦ (w, rw e found, copy)
          | inl e ↦
              let there = exists_of_find (λ q. q.id == k) db.wallets w found in
              elim (clash
                (subst (λ i. exists (λ q. q.id == i) db.wallets ≡ false) ((==_iff id k).0 e)
                  (id_is_new row db fits))
                there) [ ]
        ]
      where
        clash : {b : Bool} → b ≡ false → b ≡ true → ⊥
        clash f t = cc (f, t)

    -- From a cache that is a copy of the rows: when the creation is answered with 201, it shows a
    -- wallet of the user in the upper-case currency with nothing on it, and the balance route then
    -- answers the user with 200 and the same id, currency and balances; the read changes no row,
    -- and the cache is still a copy. Other sessions may have committed before the creation.
    pub get_balance_route-create_wallet_route :
        IsRedis client
        → (ttl later : ℕ) (others : Db → Db) (shown : WalletRead) (db after : Db) (s : S)
        → IsCoherent client (others db) s
        → create_wallet_route others now id user request db ≡ (answer 201 shown, after)
        → let (r, after', s') = get_balance_route client same later ttl id user after s in
          (shown ≡ wallet_read row)
          × (r ≡ answer 200 (balance_of_read shown))
          × (after' ≡ after)
          × IsCoherent client after' s'
    get_balance_route-create_wallet_route redis ttl later others shown db after s h done =
        let (answered, is_after) = created_answer others shown db after done in
        let o = with_session others now (create_wallet id user request) db in
        let (w, is_ok, is_shown) = creation_response_ok o.0 shown answered in
        let (same_w, written, fits) =
          created_row db (others db) o.0 o.1 w (create_wallet_outcome id user request now others db)
            is_ok in
        let is_written = sym is_after ∙ written in
        let (read, kept, coherent) = get_balance_route_lem client redis ttl id user later after s (
          subst (λ d. IsCoherent client d s) (sym is_written)
            (add_wallet-IsCoherent (others db) s fits h)) in
        let shows = is_shown ∙ ap wallet_read same_w in
        (
          shows,
          read
              ∙ ap (λ d. balance_answer client user (find_wallet id d)) is_written
              ∙ reads_row (others db)
              ∙ ap (λ q. answer 200 (balance_of_read q)) (sym shows),
          kept,
          coherent,
        )
      where
        reads_row :
            (db : Db)
            → balance_answer client user (find_wallet id (add_wallet row db))
              ≡ answer 200 (balance_read row)
        reads_row db = rw (==_refl id, ==_refl user)
