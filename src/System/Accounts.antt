-- ===== src/System/Accounts.antt =====
-- The work of app/services/auth.py and of app/api/v1/endpoints/auth.py, which leaves the links alone.
use fastapi_url_shortener.Base.{
  ℕ, ◌<◌, String, refl, sym, ◌∙◌, not, string_eq, option_eq, Option, none, some, arith, ◌==◌,
  nat_eq, inl, inr, Option-cases,
}
use fastapi_url_shortener.Core.Errors.{conflict_error, authentication_error, key_error}
use fastapi_url_shortener.Core.Action.{Result, ok, err, raise_if, or_raise, attempt}
use fastapi_url_shortener.Core.Security.{Claims, Crypto, decode_token}
use fastapi_url_shortener.Core.Settings.{Settings}
use fastapi_url_shortener.Core.World.{World, on_db, on_store}
use fastapi_url_shortener.Models.{Uuid, DateTime, User, RefreshToken}
use fastapi_url_shortener.Postgres.{Postgres, Table}
use fastapi_url_shortener.Postgres.Laws.{IsPostgres, IsApart}
use fastapi_url_shortener.Redis.{Redis}
use fastapi_url_shortener.Redis.Laws.{IsTextStore, IsTypedStore}
use fastapi_url_shortener.Formats.{Formats}
use fastapi_url_shortener.Repositories.BaseRepository as Base
use fastapi_url_shortener.Repositories.Users as Users
use fastapi_url_shortener.Repositories.RefreshTokens as Tokens
use fastapi_url_shortener.Repositories.RefreshTokens.{revoked}
use fastapi_url_shortener.AuthService as Service
use fastapi_url_shortener.AuthService.{
  RegisterRequest, LoginRequest, TokenResponse, checked, decoded, revoke_found, new_user, new_token,
  issued,
}
use fastapi_url_shortener.Dependencies.{get_current_user}
use fastapi_url_shortener.Endpoints.{limited}
use fastapi_url_shortener.Endpoints.Auth.{
  RefreshRequest, user_response, ip_or_anon, register_user, login_user, refresh_token, logout_user,
  me,
}
use fastapi_url_shortener.Redirect.Request.{Request, get_client_ip}
use fastapi_url_shortener.System.Sound.{
  IsSound, Quiet, Safe-in_session, Quiet-Safe, Quiet-bind, Quiet-on_db, Quiet-on_store,
  Quiet-result,
}
use fastapi_url_shortener.System.Stores.{limited-Same}
use fastapi_url_shortener.System.Reads.{Keeps, Keeps-or_raise, Keeps-bind, Keeps-get_current_user}

module _ ⦃pg : Postgres⦄ {Row : Type 0} (t : Table pg.Db Row) (links : IsApart t pg.short_urls)
    (clicks : IsApart t pg.click_events) where
  Keeps-create : (x : Row) → Keeps (Base.create t x)
  unfolding Base.create
  Keeps-create x db = elim (Option-cases (t.add x db)) [
    | inl refused ↦ rw (refused, attempt) refl
    | inr (db', added) ↦
        rw (added, attempt)
          (λ i. (links.rows-add x db db' added i, clicks.rows-add x db db' added i))
  ]

  Keeps-update :
      (id_of : Row → Uuid) (x : Row) (set : Row → Row) → Keeps (Base.update t id_of x set)
  unfolding Base.update
  Keeps-update id_of x set db = λ i. (
    links.rows-update (λ v. id_of v == id_of x) set db i,
    clicks.rows-update (λ v. id_of v == id_of x) set db i,
  )

module _ ⦃pg : Postgres⦄ (laws : IsPostgres pg) where
  Keeps-add_user : (u : User) → Keeps (Users.create u)
  unfolding Users.create
  Keeps-add_user u = Keeps-create pg.users laws.users_apart_links laws.users_apart_clicks u

  Keeps-add_token : (t : RefreshToken) → Keeps (Tokens.create t)
  unfolding Tokens.create
  Keeps-add_token t =
      Keeps-create pg.refresh_tokens laws.refresh_tokens_apart_links
        laws.refresh_tokens_apart_clicks t

  Keeps-change_token :
      (t : RefreshToken) (set : RefreshToken → RefreshToken) → Keeps (Tokens.update t set)
  unfolding Tokens.update
  Keeps-change_token t set =
      Keeps-update pg.refresh_tokens laws.refresh_tokens_apart_links
        laws.refresh_tokens_apart_clicks (λ v. v.id) t set

  module _ ⦃f : Formats⦄ ⦃y : Crypto⦄ (settings : Settings) (now : DateTime) where
    Keeps-register :
        (d : RegisterRequest) (id : Uuid) (salt : ℕ)
        → Keeps (Service.register settings d id salt now)
    unfolding Service.register Users.email_exists Base.find_one
    Keeps-register d id salt =
        Keeps-bind (Users.email_exists d.email) _
          (Keeps-bind (Base.find_one pg.users (λ u. u.email == d.email)) _ (λ db. refl)
            (λ u db. refl))
          (λ taken.
            Keeps-bind (raise_if taken (conflict_error "Email already registered")) _ (λ db. refl)
              (λ _. Keeps-add_user (new_user id now d (y.hash salt d.password))))

    Keeps-checked : (password : String) (u : Option User) → Keeps (checked settings password u)
    unfolding checked
    Keeps-checked password none = λ db. refl
    Keeps-checked password (some u) =
        Keeps-bind
          (raise_if (not (y.verify password u.hashed_password))
            (authentication_error "Invalid email or password"))
          _ (λ db. refl) (λ _ db. refl)

    Keeps-login :
        (d : LoginRequest) (ip user_agent : Option String) (id : Uuid)
        → Keeps (Service.login settings d ip user_agent id now)
    unfolding Service.login Users.get_by_email Base.find_one
    Keeps-login d ip user_agent id =
        Keeps-bind (Users.get_by_email d.email) _ (λ db. refl)
          (λ found.
            Keeps-bind (checked settings d.password found) _ (Keeps-checked d.password found) (λ u.
              Keeps-bind
                (raise_if (not u.is_active) (authentication_error "Account is deactivated")) _
                (λ db. refl)
                (λ _.
                  Keeps-bind
                    (Tokens.create (
                      new_token settings id now u.id
                        (issued settings now (f.uuid_str u.id)).refresh_token ip user_agent))
                    _ (Keeps-add_token _) (λ _ db. refl))))

    Keeps-decoded : (a : Result Claims) → Keeps (decoded settings a)
    Keeps-decoded (ok c) db = refl
    Keeps-decoded (err e) db = refl

    Keeps-refresh : (raw : String) (id : Uuid) → Keeps (Service.refresh settings raw id now)
    unfolding Service.refresh Tokens.get_by_hash Base.find_one
    Keeps-refresh raw id =
        Keeps-bind (Tokens.get_by_hash (f.sha256 raw) now) _ (λ db. refl)
          (λ found.
            Keeps-bind (or_raise found (authentication_error "Invalid or expired refresh token")) _
              (Keeps-or_raise found _)
              (λ stored.
                Keeps-bind (decoded settings (decode_token settings now raw)) _ (Keeps-decoded _)
                  (λ payload.
                    Keeps-bind
                      (raise_if (not (payload.type == some "refresh"))
                        (authentication_error "Invalid token type"))
                      _ (λ db. refl)
                      (λ _.
                        Keeps-bind (Tokens.update stored (revoked now)) _
                          (Keeps-change_token stored (revoked now))
                          (λ _.
                            Keeps-bind (or_raise payload.sub key_error) _
                              (Keeps-or_raise payload.sub key_error)
                              (λ user_id.
                                Keeps-bind
                                  (Tokens.create (
                                    new_token settings id now stored.user_id
                                      (issued settings now user_id).refresh_token none none))
                                  _ (Keeps-add_token _) (λ _ db. refl)))))))

    Keeps-revoke_found : (t : Option RefreshToken) → Keeps (revoke_found settings now t)
    Keeps-revoke_found none = λ db. refl
    Keeps-revoke_found (some t) =
        Keeps-bind (Tokens.update t (revoked now)) _ (Keeps-change_token t (revoked now))
          (λ _ db. refl)

    Keeps-logout : (raw : String) → Keeps (Service.logout settings raw now)
    unfolding Service.logout Tokens.get_by_hash Base.find_one
    Keeps-logout raw =
        Keeps-bind (Tokens.get_by_hash (f.sha256 raw) now) _ (λ db. refl) Keeps-revoke_found

  module _ ⦃r : Redis⦄ ⦃f : Formats⦄ ⦃y : Crypto⦄ (texts : IsTextStore r) (typed : IsTypedStore r)
      (settings : Settings) (now : DateTime) where
    Quiet-limited :
        (i : String) (limit window : ℕ) (e message req_id : String)
        → 0 < window
        → Quiet (on_store (limited i limit window e message now req_id))
    Quiet-limited i limit window e message req_id h =
        Quiet-on_store (limited i limit window e message now req_id) (λ s c raw hit.
          sym (limited-Same texts typed i limit window e message now req_id s h c) ∙ hit)

    pub register_user-IsSound :
        (d : RegisterRequest) (q : Request) (req_id : String) (id : Uuid) (salt : ℕ)
        (w : World pg r)
        → IsSound f w
        → IsSound f (register_user settings now d q req_id id salt w).1
    unfolding register_user
    register_user-IsSound d q req_id id salt w = Safe-in_session f _ w (
        Quiet-Safe f _ (
          Quiet-bind _ _
            (Quiet-limited (ip_or_anon (get_client_ip q)) 10 3600 "register"
              "Too many registration attempts" req_id (omega arith))
            (λ _.
              Quiet-bind (on_db (Service.register settings d id salt now)) _
                (Quiet-on_db (Service.register settings d id salt now)
                  (Keeps-register settings now d id salt))
                (λ u. Quiet-result (ok (user_response u))))))

    pub login_user-IsSound :
        (d : LoginRequest) (q : Request) (req_id : String) (id : Uuid) (w : World pg r)
        → IsSound f w
        → IsSound f (login_user settings now d q req_id id w).1
    unfolding login_user
    login_user-IsSound d q req_id id w = Safe-in_session f _ w (
        Quiet-Safe f _ (
          Quiet-bind _ _
            (Quiet-limited (ip_or_anon (get_client_ip q)) 20 300 "login" "Too many login attempts"
              req_id (omega arith))
            (λ _.
              Quiet-on_db (Service.login settings d (get_client_ip q) q.user_agent id now)
                (Keeps-login settings now d (get_client_ip q) q.user_agent id))))

    pub refresh_token-IsSound :
        (d : RefreshRequest) (id : Uuid) (w : World pg r)
        → IsSound f w
        → IsSound f (refresh_token settings now d id w).1
    unfolding refresh_token
    refresh_token-IsSound d id w = Safe-in_session f _ w (
        Quiet-Safe f _ (
          Quiet-on_db (Service.refresh settings d.refresh_token id now)
            (Keeps-refresh settings now d.refresh_token id)))

    pub logout_user-IsSound :
        (d : RefreshRequest) (w : World pg r)
        → IsSound f w
        → IsSound f (logout_user settings now d w).1
    unfolding logout_user
    logout_user-IsSound d w = Safe-in_session f _ w (
        Quiet-Safe f _ (
          Quiet-on_db (Service.logout settings d.refresh_token now)
            (Keeps-logout settings now d.refresh_token)))

module _ ⦃pg : Postgres⦄ where
  pub me-IsSound :
      ⦃r : Redis⦄ ⦃f : Formats⦄ ⦃y : Crypto⦄ (settings : Settings) (now : DateTime)
      (credentials : Option String) (w : World pg r)
      → IsSound f w
      → IsSound f (me settings now credentials w).1
  unfolding me
  me-IsSound ⦃r⦄ ⦃f⦄ settings now credentials w = Safe-in_session f _ w (
      Quiet-Safe f _ (
        Quiet-bind (on_db (get_current_user settings now credentials)) _
          (Quiet-on_db (get_current_user settings now credentials)
            (Keeps-get_current_user settings now credentials))
          (λ u. Quiet-result (ok (user_response u)))))
