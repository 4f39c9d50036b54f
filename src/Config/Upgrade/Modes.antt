-- ===== src/Config/Upgrade/Modes.antt =====
-- What an upgraded site takes and how it is served.
use odd_box.Base.{◌||◌, ◌∷◌, ◌++◌, [], suc, some, none, true, false, map, refl, ◌≡◌, Bool, List, ℕ}
use odd_box.Config.Backends.{filter_backend, http1}
use odd_box.Config.Sites.{
  all, any, hint_eq, h1, or_empty, Backend, Hint, InProcessSiteConfig, OddBoxConfig,
  RemoteSiteConfig,
}
use odd_box.Config.Old.{InProcessSiteConfigV2, OddBoxV2Config, RemoteSiteConfigV2}
use odd_box.Config.Upgrade.{
  backend_of_v2, known_hints, legacy, map_numbered, new_hints, process_of_v2, remote_of_v2,
  try_upgrade_to_latest_version, v1, v1_of_legacy, v2, v2_of_v1, v3, v3_of_v2, with_h1,
  AnyOddBoxConfig,
}
use odd_box.Routing.Dispatch.{gate_hosted, gate_remote, http_termination_enforced}
use odd_box.Routing.Target.{http_11}

or_true : (a b : Bool) → b ≡ true → (a || b) ≡ true
or_true true b e = refl
or_true false b e = e

any-append_h1 : (hs : List Hint) → any (λ h. hint_eq h h1) (hs ++ h1 ∷ []) ≡ true
unfolding any hint_eq
any-append_h1 [] = refl
any-append_h1 (h ∷ hs) = or_true (hint_eq h h1) _ (any-append_h1 hs)

-- A backend of a process: what its hints and its scheme say.
abbrev pub as_backend : InProcessSiteConfig → Backend
as_backend x = record { address = []; port = 0; https = x.https; hints = x.hints }

takes_http1 : (b : Backend) (hs : List Hint) → b.hints ≡ with_h1 hs → filter_backend http1 b ≡ true
unfolding filter_backend
takes_http1 b [] e = rw e refl
takes_http1 b (h ∷ hs) e = rw e (or_true _ _ (any-append_h1 (h ∷ hs)))

all-map {ℓ κ} :
    {A : Type ℓ} {B : Type κ} (f : A → B) (p : B → Bool) (xs : List A)
    → ((x : A) → p (f x) ≡ true)
    → all p (map f xs) ≡ true
unfolding all
all-map f p [] h = refl
all-map f p (x ∷ xs) h = rw (h x) (all-map f p xs h)

all-map_numbered {ℓ κ} :
    {A : Type ℓ} {B : Type κ} (f : ℕ → A → B) (p : B → Bool) (i : ℕ) (xs : List A)
    → ((j : ℕ) (x : A) → p (f j x) ≡ true)
    → all p (map_numbered f i xs) ≡ true
unfolding all map_numbered
all-map_numbered f p i [] h = refl
all-map_numbered f p i (x ∷ xs) h = rw (h i x) (all-map_numbered f p (suc i) xs h)

abbrev pub AllTakeHttp1 : OddBoxConfig → Type 0
AllTakeHttp1 c =
    (all (λ p. filter_backend http1 (as_backend p)) (or_empty c.hosted_process) ≡ true)
    × (all (λ (r : RemoteSiteConfig). all (filter_backend http1) r.backends)
          (or_empty c.remote_target)
        ≡ true)

v3_of_v2-takes : (new_id : ℕ → ℕ) (c : OddBoxV2Config) → AllTakeHttp1 (v3_of_v2 new_id c)
unfolding v3_of_v2 process_of_v2 remote_of_v2 backend_of_v2 new_hints
v3_of_v2-takes new_id c = (
  all-map_numbered (λ i. process_of_v2 (new_id i)) (λ p. filter_backend http1 (as_backend p)) 0
      (or_empty c.hosted_process)
      (λ i x.
        takes_http1 (as_backend (process_of_v2 (new_id i) x)) (known_hints (or_empty x.hints))
          refl),
  all-map remote_of_v2 (λ (r : RemoteSiteConfig). all (filter_backend http1) r.backends)
      (or_empty c.remote_target)
      (λ r.
        all-map backend_of_v2 (filter_backend http1) r.backends
          (λ b. takes_http1 (backend_of_v2 b) (known_hints (or_empty b.hints)) refl)),
)

-- Every process and every backend of a configuration that was upgraded takes HTTP/1, whatever hints it had.
pub try_upgrade_to_latest_version-takes_http1 :
    (new_id : ℕ → ℕ) (c : AnyOddBoxConfig)
    → (try_upgrade_to_latest_version new_id c).2 ≡ true
    → AllTakeHttp1 ((try_upgrade_to_latest_version new_id c).0)
unfolding try_upgrade_to_latest_version
try_upgrade_to_latest_version-takes_http1 new_id (v3 c) upgraded = absurd (cc)
try_upgrade_to_latest_version-takes_http1 new_id (v2 c) upgraded = v3_of_v2-takes new_id c
try_upgrade_to_latest_version-takes_http1 new_id (v1 c) upgraded =
    v3_of_v2-takes new_id (v2_of_v1 new_id c)
try_upgrade_to_latest_version-takes_http1 new_id (legacy c) upgraded =
    v3_of_v2-takes new_id (v2_of_v1 new_id (v1_of_legacy c))

-- A remote site that disabled tunnels in the second version has its HTTP terminated after the upgrade; a hosted process
-- that did is let into a tunnel with its HTTP/1.1, whatever it had set.
pub process_of_v2-gate_hosted :
    (id : ℕ) (x : InProcessSiteConfigV2) (y : RemoteSiteConfigV2) (is_tls : Bool)
    → x.disable_tcp_tunnel_mode ≡ some true
    → y.disable_tcp_tunnel_mode ≡ some true
    → (gate_hosted (process_of_v2 id x) is_tls (some http_11) false ≡ none)
      × (gate_remote (remote_of_v2 y) is_tls (some http_11) false ≡ some http_termination_enforced)
unfolding gate_hosted gate_remote process_of_v2 remote_of_v2
process_of_v2-gate_hosted id x y true disabled disabled' = (refl, rw disabled' refl)
process_of_v2-gate_hosted id x y false disabled disabled' = (refl, rw disabled' refl)
