-- ===== src/S3api/Service/Unsigned.antt =====
-- internal/s3api/handler.go: requests without a signature, on a gateway as a whole.
use telegram_s.Base.{◌≡◌, refl, ap, ◌∙◌, inl, inr, true, false, Bool-cases, arith}
use telegram_s.Mtproto.Api.{Telegram}
use telegram_s.Mtproto.Pool.{Remote}
use telegram_s.Metadata.{Store}
use telegram_s.S3api.Router.{Action, forbidden, route}
use telegram_s.S3api.Router
use telegram_s.S3api.Router.Public.{is_public, route-public}
use telegram_s.S3api.Service.{Gateway, Call, perform, serve_http}

perform-public :
    (t : Telegram) (g : Gateway t) (c : Call) (a : Action) (s : Store)
    (r : Remote (Telegram.Channel t))
    → is_public a ≡ true
    → perform t g c a s r ≡ (s, r)
unfolding perform
perform-public t g c Router.healthz s r h = refl
perform-public t g c Router.preflight s r h = refl
perform-public t g c (Router.list_parts bucket key id) s r h = refl
perform-public t g c (Router.get_object bucket key) s r h = refl
perform-public t g c (Router.head_object bucket key) s r h = refl
perform-public t g c _ s r h = absurd (ground arith)

perform-refused :
    (t : Telegram) (g : Gateway t) (c : Call) (s : Store) (r : Remote (Telegram.Channel t))
    → perform t g c forbidden s r ≡ (s, r)
unfolding perform
perform-refused t g c s r = refl

-- A request that is not signed leaves the store and the channel as they are, whatever it asks for.
pub serve_http-unsigned :
    (t : Telegram) (g : Gateway t) (c : Call) (s : Store) (r : Remote (Telegram.Channel t))
    → g.authorized c.http ≡ false
    → serve_http t g c s r ≡ (s, r)
unfolding serve_http
serve_http-unsigned t g c s r unsigned =
    let there = route g.endpoint_host true c.http in
    ap (λ b. perform t g c (route g.endpoint_host b c.http) s r) unsigned
    ∙ ap (λ a. perform t g c a s r) (route-public g.endpoint_host c.http)
    ∙ elim (Bool-cases (is_public there)) [
      | inl open_to_all ↦ rw open_to_all (perform-public t g c there s r open_to_all)
      | inr closed ↦ rw closed (perform-refused t g c s r)
    ]
