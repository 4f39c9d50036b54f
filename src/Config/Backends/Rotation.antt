-- ===== src/Config/Backends/Rotation.antt =====
-- The backend that is chosen can take the connection, and every backend has its turn.
use odd_box.Base.{
  not_leb→lt, sym, ◌∙◌, ap, bytes_eq_iff, leb→le, ◌-◌, get_elem?-some, leb, Bool-cases, inr, zero,
  [], arith, inl, none, suc, ◌∷◌, false, length, refl, subst, ◌%◌, ◌⊎◌, if◌then◌else◌, some, true,
  ◌+◌, Bool, get_elem?, ◌<◌, ◌≡◌, List, ℕ, Bytes, bytes_eq, Option,
}
use odd_box.Config.Backends.{
  AccessCounts, access_count, count_connection, filter_backend, BackendFilter, next_remote_backend,
  take_turn, usable,
}
use odd_box.Config.Sites.{RemoteSiteConfig, Backend}
use mathlib.Core.Option.{some-injective}
use native.Mathlib.Nat.{mod-add-mod, mod-lt, mod-eq_of_lt, add-mod_right}

-- The backend is one of the list.
pub data Among (b : Backend) : List Backend → Type 0 where
  here : {bs : List Backend} → Among b (b ∷ bs)
  there : {c : Backend} {bs : List Backend} → Among b bs → Among b (c ∷ bs)

Among-get_elem? : (bs : List Backend) (i : ℕ) {b : Backend} → get_elem? bs i ≡ some b → Among b bs
Among-get_elem? [] i {b} e = cc
Among-get_elem? (c ∷ bs) zero {b} e = subst (λ x. Among x (c ∷ bs)) (some-injective c b e) here
Among-get_elem? (c ∷ bs) (suc i) {b} e = there (Among-get_elem? bs i e)

-- A backend of the list that passes the filter.
pub record IsUsable (f : BackendFilter) (bs : List Backend) (b : Backend) : Type 0 where
  pub among : Among b bs
  pub passes : filter_backend f b ≡ true

IsUsable-step :
    (f : BackendFilter) (c : Backend) (bs rest : List Backend) (t : Bool) {b : Backend}
    → filter_backend f c ≡ t
    → (Among b rest → IsUsable f bs b)
    → Among b (if t then c ∷ rest else rest)
    → IsUsable f (c ∷ bs) b
IsUsable-step f c bs rest true e k here = record { among = here; passes = e }
IsUsable-step f c bs rest true e k (there m) =
    let u = k m in record { among = there u.among; passes = u.passes }
IsUsable-step f c bs rest false e k m =
    let u = k m in record { among = there u.among; passes = u.passes }

pub usable-IsUsable :
    (f : BackendFilter) (bs : List Backend) {b : Backend} → Among b (usable f bs) → IsUsable f bs b
unfolding usable
usable-IsUsable f [] {b} m = elim m [ ]
usable-IsUsable f (c ∷ bs) {b} m =
    IsUsable-step f c bs (usable f bs) (filter_backend f c) refl (usable-IsUsable f bs) m

usable_empty :
    (f : BackendFilter) (bs : List Backend) {b : Backend}
    → usable f bs ≡ []
    → Among b bs
    → filter_backend f b ≡ false
unfolding usable
usable_empty f [] {b} e m = elim m [ ]
usable_empty f (c ∷ bs) {b} e here = ground arith
usable_empty f (c ∷ bs) {b} e (there m) =
    ground (arith, λ (t : usable f bs ≡ []). usable_empty f bs {b = b} t m)

pub take_turn_lem :
    (count : ℕ) (bs : List Backend)
    → (bs ≡ []) ⊎ ((b : Backend) × (take_turn count bs ≡ some b) × Among b bs)
unfolding take_turn
take_turn_lem count [] = inl refl
take_turn_lem count (b ∷ []) = inr (b, refl, here)
take_turn_lem count (b ∷ c ∷ bs) =
    let all_of_them : List Backend = b ∷ c ∷ bs in
    let (d, e) =
      get_elem?-some all_of_them (count % length all_of_them) (mod-lt count (omega arith)) in
    inr (d, e, Among-get_elem? all_of_them _ e)

-- A site's next backend is one of the site's that can take the connection; there is none only if no backend
-- of the site can take it.
pub next_remote_backend-IsUsable :
    (site : RemoteSiteConfig) (counts : AccessCounts) (f : BackendFilter)
    → ((b : Backend) × (next_remote_backend site counts f ≡ some b) × IsUsable f site.backends b)
      ⊎ ((next_remote_backend site counts f ≡ none)
          × ((b : Backend) → Among b site.backends → filter_backend f b ≡ false))
unfolding next_remote_backend take_turn
next_remote_backend-IsUsable site counts f =
    elim (take_turn_lem (access_count site.host_name counts) (usable f site.backends)) [
      | inl e ↦ inr (rw (e, take_turn), λ b. usable_empty f site.backends e)
      | inr (b, e, m) ↦ inl (b, e, usable-IsUsable f site.backends m)
    ]

turn_exists : (n count i : ℕ) → i < n → (j : ℕ) × (j < n) × ((count + j) % n ≡ i)
turn_exists n count i h =
    let r = count % n in
    let small : r < n = mod-lt count (omega arith) in
    elim (Bool-cases (leb r i)) [
      | inl le ↦
          let sum : r + (i - r) ≡ i = omega (arith, leb→le r i le) in
          (
            i - r,
            omega arith,
            sym (mod-add-mod count n (i - r)) ∙ ap (λ k. k % n) sum ∙ mod-eq_of_lt h,
          )
      | inr gt ↦
          let above = not_leb→lt r i gt in
          let sum : r + (i + n - r) ≡ i + n = omega arith in
          (
            i + n - r,
            omega arith,
            sym (mod-add-mod count n (i + n - r))
                ∙ ap (λ k. k % n) sum
                ∙ add-mod_right i n
                ∙ mod-eq_of_lt h,
          )
    ]

get_elem?_inside :
    (bs : List Backend) (i : ℕ) {b : Backend} → get_elem? bs i ≡ some b → i < length bs
get_elem?_inside [] i {b} e = cc
get_elem?_inside (c ∷ bs) zero e = omega arith
get_elem?_inside (c ∷ bs) (suc i) e = omega (arith, get_elem?_inside bs i e)

take_turn_at :
    (count i : ℕ) (bs : List Backend)
    → i < length bs
    → count % length bs ≡ i
    → take_turn count bs ≡ get_elem? bs i
unfolding take_turn
take_turn_at count i [] h e = absurd (omega arith)
take_turn_at count zero (b ∷ []) h e = refl
take_turn_at count (suc i) (b ∷ []) h e = absurd (omega arith)
take_turn_at count i (b ∷ c ∷ bs) h e = ap (get_elem? (b ∷ c ∷ bs)) e

-- The backends of connections to a site that are made one after the other, each of them counted before the next.
unfoldable pub connections :
    RemoteSiteConfig → BackendFilter → ℕ → AccessCounts → List (Option Backend)
connections site f zero counts = []
connections site f (suc n) counts =
    next_remote_backend site counts f
    ∷ connections site f n (count_connection site.host_name counts)

access_count-count_connection :
    (host : Bytes) (counts : AccessCounts)
    → access_count host (count_connection host counts) ≡ access_count host counts + 1
unfolding access_count count_connection
access_count-count_connection host [] = rw ((bytes_eq_iff host host).1 refl) refl
access_count-count_connection host ((name, n) ∷ counts) = elim (Bool-cases (bytes_eq name host)) [
  | inl it ↦ rw (it, it) refl
  | inr other ↦ rw (other, other) (access_count-count_connection host counts)
]

connections-get_elem? :
    (site : RemoteSiteConfig) (f : BackendFilter) (n j : ℕ) (counts : AccessCounts)
    → j < n
    → get_elem? (connections site f n counts) j
      ≡ some (take_turn (access_count site.host_name counts + j) (usable f site.backends))
unfolding connections next_remote_backend
connections-get_elem? site f zero j counts h = absurd (omega arith)
connections-get_elem? site f (suc n) zero counts h =
    let here : access_count site.host_name counts ≡ access_count site.host_name counts + 0 =
      omega arith in
    ap (λ k. some (take_turn k (usable f site.backends))) here
connections-get_elem? site f (suc n) (suc j) counts h =
    let onward : access_count site.host_name (count_connection site.host_name counts) + j
        ≡ access_count site.host_name counts + suc j =
      omega (arith, access_count-count_connection site.host_name counts) in
    connections-get_elem? site f n j (count_connection site.host_name counts) (omega arith)
    ∙ ap (λ k. some (take_turn k (usable f site.backends))) onward

-- Of as many connections to a remote site as it has backends that can take them, one goes to each such backend,
-- whatever was counted before: if all of them are made, each is counted before the next one asks for its backend, and
-- nothing else is counted for the host meanwhile. (A connection that is not made is not counted, and the next one asks
-- for the same backend.)
pub next_remote_backend_rotates :
    (site : RemoteSiteConfig) (counts : AccessCounts) (f : BackendFilter) (i : ℕ) (b : Backend)
    → get_elem? (usable f site.backends) i ≡ some b
    → (j : ℕ) × (j < length (usable f site.backends))
      × (get_elem? (connections site f (length (usable f site.backends)) counts) j ≡ some (some b))
next_remote_backend_rotates site counts f i b e =
    let bs = usable f site.backends in
    let count = access_count site.host_name counts in
    let inside = get_elem?_inside bs i e in
    let (j, small, turn) = turn_exists (length bs) count i inside in
    (
      j,
      small,
      connections-get_elem? site f (length bs) j counts small
          ∙ ap some (take_turn_at (count + j) i bs inside turn ∙ e),
    )
