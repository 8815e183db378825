-- ===== src/Stream/Tests.antt =====
-- A stream that takes over from the ring while one message is in both.
use mizuflow.Base.{◌≡◌, refl, List, [], ◌∷◌, false, String}
use mizuflow.Base.Int.{ℤ, pos}
use mizuflow.Api.{Message}
use mizuflow.Stream.{message, reset, relevant, contains, watch_feature, dashboard_watch, fetch_all}
use mizuflow.Samples.{old_flag, new_flag}
use mizuflow.Watch.{put_message}

abbrev at_rev : ℤ → Message
at_rev r = put_message new_flag r (pos 0)

abbrev elsewhere : Message
elsewhere = record (at_rev (pos 6)) { env = "dev" }

abbrev only_shop : List String
only_shop = "shop" ∷ []

resets :
    watch_feature "prod" only_shop (pos 3) ([], false) (at_rev (pos 4) ∷ [])
    ≡ reset ∷ message (at_rev (pos 4)) ∷ []
unfolding watch_feature relevant contains
resets = refl

to_dashboards : dashboard_watch (elsewhere ∷ []) ≡ message elsewhere ∷ []
unfolding dashboard_watch
to_dashboards = refl

fetches : fetch_all "prod" "" [] (old_flag ∷ record old_flag { env = "dev" } ∷ []) ≡ old_flag ∷ []
unfolding fetch_all
fetches = refl
