-- ===== src/Repo/Access.antt =====
-- internal/repository/sdk.go behind internal/middleware/auth.go: which clients are let in.
use mizuflow.Base.{
  String, ◌≡◌, ◌≢◌, refl, sym, ap, ◌∙◌, true, ◌⊎◌, inl, inr, Option, none, some, [], ◌∷◌, arith,
}
use mizuflow.Http.{
  SdkRepository, GinContext, get_header, get_query, ServiceState, StreamRoute, stream, dashboard,
  opens, App, Server, Readings, serve,
}
use mizuflow.Http.Admission.{serve_opens}
use mizuflow.Repo.{SdkClient, text_is, number_is, Tables, validate_api_key, is_known}
use mizuflow.Repo.Laws.{Collation, Occurs, Reads, meets, meets_all, client_columns}

-- The keys of the database of the services.
unfoldable pub service_keys : {D : Type 0} → Tables D → SdkRepository (ServiceState D)
service_keys db = record {
  validate_api_key =
      λ key env s. let (ok, d) = validate_api_key db key env s.db in (ok, record s { db = d });
}

module _ {D : Type 0} (collation : Collation) (db : Tables D)
    (laws : Reads collation client_columns db.clients) where
  -- The database has an enabled client with the key, in the environment.
  abbrev pub HasClient : String → String → D → Type 0
  HasClient api_key env d =
      (c : SdkClient) × Occurs c (laws.rows d)
      × (collation.same c.api_key api_key ≡ true)
      × (collation.same c.env env ≡ true)
      × (c.status ≡ 1)

  known_true :
      {A : Type 0} (r : Option (Option A)) → is_known r ≡ some true → (a : A) × (r ≡ some (some a))
  known_true none h = absurd (cc)
  known_true (some none) h = absurd (cc)
  known_true (some (some a)) h = (a, refl)

  validate_api_key-HasClient :
      (api_key env : String) (d : D)
      → (validate_api_key db api_key env d).0 ≡ some true
      → HasClient api_key env d
  unfolding validate_api_key meets_all meets
  validate_api_key-HasClient api_key env d h =
      let (c, found) = known_true _ h in
      let (row, met) =
        laws.first_gives (text_is "api_key" api_key ∷ text_is "env" env ∷ number_is "status" 1 ∷ [])
          "" d c found in
      (c, row, ground arith, ground arith, ground arith)

  -- Of a server that looks keys up in the database, whose reads give rows that meet their conditions: a watch
  -- or a fetch of the snapshot is opened only where the server is started for a load test or the database has
  -- an enabled client with the request's key in the environment that the request names.
  pub serve_opens-HasClient :
      {R L : Type 0} (app : App (ServiceState D) R L) (t : Readings) (kind : StreamRoute)
      (c c' : GinContext) (s : Server (ServiceState D) R L)
      → app.sdk ≡ service_keys db
      → kind ≢ dashboard
      → (serve app t (stream kind) c s).0 ≡ opens kind c'
      → (app.env ≡ "loadtest")
        ⊎ HasClient (get_header c "X-Mizu-Key") (get_query c "env") s.world.db
  unfolding service_keys
  serve_opens-HasClient app t kind c c' s same other h =
      elim (serve_opens app t kind c c' s other h) [
        | inl free ↦ inl free
        | inr (given, valid) ↦ inr (
            validate_api_key-HasClient (get_header c "X-Mizu-Key") (get_query c "env") s.world.db (
              sym (
                ap
                  (λ (k : SdkRepository (ServiceState D)).
                    (k.validate_api_key (get_header c "X-Mizu-Key") (get_query c "env") s.world).0)
                  same)
              ∙ valid))
      ]
