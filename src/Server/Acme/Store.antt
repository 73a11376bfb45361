-- ===== src/Server/Acme/Store.antt =====
-- `ChallengeStore`: the key authorization of each challenge token.
use loophole.Base.{◌≡◌, Option, none, some, [], if◌then◌else◌}
use loophole.Text.{Text, ◌==◌}
use loophole.Map
use loophole.Map.{Map, get-insert}

pub record ChallengeStore : Type 0 where
  pub tokens : Map Text

unfoldable pub new : ChallengeStore
new = record { tokens = [] }

unfoldable pub set : ChallengeStore → Text → Text → ChallengeStore
set store token key_auth = record { tokens = Map.insert store.tokens token key_auth }

unfoldable pub get : ChallengeStore → Text → Option Text
get store token = Map.get store.tokens token

unfoldable pub remove : ChallengeStore → Text → ChallengeStore
remove store token = record { tokens = Map.remove store.tokens token }

pub get-set :
    (s : ChallengeStore) (t u k : Text) → get (set s t k) u ≡ (if t == u then some k else get s u)
unfolding get set
get-set s t u k = get-insert s.tokens t u k

pub get-remove :
    (s : ChallengeStore) (t u : Text) → get (remove s t) u ≡ (if t == u then none else get s u)
unfolding get remove
get-remove s t u = loophole.Map.get-remove s.tokens t u
