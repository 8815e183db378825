-- ===== src/Auth/Tests.antt =====
-- A session that is refreshed, over a Redis that does not fail.
use mizuflow.Base.{
  String, ◌≡◌, ◌≢◌, refl, sym, ap, ◌∙◌, true, Option, none, some, [], ◌∷◌, eq_refl, eq_iff, arith,
}
use mathlib.Core.Option.{some-injective}
use mizuflow.Base.Int.{pos}
use mizuflow.Base.Dict.{Dict, lookup, insert, lookup-insert}
use mizuflow.Auth.{
  Jwt, Redis, UserClaims, TokenResp, granted, denied, invalid_credentials, Reply, value, nil,
  session_key, claims_of, Now, login, refresh, with_session, generate_tokens,
}
use mizuflow.Auth.Rotation.{AuthLaws, refresh_rotates}

abbrev reply_of : Option String → Reply
reply_of none = nil
reply_of (some s) = value s

abbrev redis : Redis (Dict String)
redis = record {
  get = λ key r. (reply_of (lookup key r), r);
  set = λ key s r. (true, insert key s r);
  del = λ key r. (true, r);
}

abbrev claims : UserClaims
claims = claims_of "1001" "admin" "admin" (pos 0) (pos 9) "first"

abbrev jwt : Jwt
jwt = record { sign = λ c. some c.jti; parse = λ now token. some claims }

abbrev time : Now
time = record {
  now = pos 5;
  access_end = pos 6;
  refresh_end = pos 9;
  access_seconds = pos 1;
  new_id = "second";
}

abbrev session : Dict String
session = (session_key "1001", "first") ∷ []

stored_value :
    (o : Option String) (s found : String) → o ≡ some s → reply_of o ≡ value found → found ≡ s
stored_value none s found h g = absurd (cc)
stored_value (some x) s found h g = sym (ap text_of g) ∙ some-injective _ _ h
  where
    text_of : Reply → String
    text_of (value t) = t
    text_of _ = ""

auth_laws : AuthLaws jwt redis
auth_laws = record {
  get_set = λ key s found r ok g.
      stored_value (lookup key (insert key s r)) s found
        (lookup-insert key key s r ∙ rw (eq_refl key)) g;
  parse_once = λ now later token c c' h k. some-injective _ _ (sym k ∙ h);
}

refuses_password : (login jwt redis time "admin" "guess" session).0 ≡ denied invalid_credentials
unfolding login
refuses_password = refl

abbrev refreshed : TokenResp
refreshed = record {
  access_token = "";
  refresh_token = "second";
  expires_in = pos 1;
  user_id = "";
  username = "";
  role = "";
}

refreshes : (refresh jwt redis time "first" session).0 ≡ granted refreshed
unfolding refresh lookup with_session generate_tokens
refreshes = refl

differs : ◌≢◌ {A = String} "second" "first"
differs e = ground (arith, eq_iff "second" "first")

refresh_rotates_example :
    (refresh jwt redis time "first" (refresh jwt redis time "first" session).1).0
    ≢ granted refreshed
refresh_rotates_example =
    refresh_rotates auth_laws time time "first" session refreshed refreshed refreshes differs
