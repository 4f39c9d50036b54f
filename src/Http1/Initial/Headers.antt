-- ===== src/Http1/Initial/Headers.antt =====
-- The header lines of a request that the quick look counts, and what it makes of one of them.
pub mod Named
use odd_box.Base.{
  ◌&&◌, ◌||◌, ◌∷◌, ◌++◌, ◌-◌, ◌≤◌, ◌==◌, [], none, some, true, false, ok, err, refl, ap, sym, ◌∙◌,
  ◌≡◌, arith, subst, take-all, length, take, drop, get_or, map, le→leb, leb, zero, suc,
  if◌then◌else◌, is_utf8, is_whitespace, eq_ignore_case, contains_ignore_case, from_utf8, Bool,
  Bytes, Exec, List, Option, ℕ,
}
use odd_box.Config.Sites.{any}
use odd_box.Http1.Initial.{process_line, trim_start, Seen}
use odd_box.Http1.Initial.Values.{value_read, IsValue}
use odd_box.Http1.Message.{codes}

-- A line of the headers: one of the four that count, with its value, or another.
pub data HeaderLine : Type 0 where
  host upgrade connection http2_settings other : Bytes → HeaderLine

-- How it is written.
abbrev pub line_of : HeaderLine → Bytes
line_of (host v) = codes "Host: " ++ v
line_of (upgrade v) = codes "Upgrade: " ++ v
line_of (connection v) = codes "Connection: " ++ v
line_of (http2_settings v) = codes "HTTP2-Settings: " ++ v
line_of (other l) = l

-- A line that begins with none of the four names, in any case, and not with white space.
pub record IsOther (l : Bytes) : Type 0 where
  pub front : ℕ
  pub behind : Bytes
  pub whole : l ≡ front ∷ behind
  pub no_space : is_whitespace front ≡ false
  pub no_host : eq_ignore_case (take 5 l) (codes "Host:") ≡ false
  pub no_upgrade : eq_ignore_case (take 8 l) (codes "Upgrade:") ≡ false
  pub no_connection : eq_ignore_case (take 11 l) (codes "Connection:") ≡ false
  pub no_settings : eq_ignore_case (take 15 l) (codes "HTTP2-Settings:") ≡ false

pub data AllHeaders : List HeaderLine → Type 0 where
  no_headers : AllHeaders []
  with_host :
      {v : Bytes} {hs : List HeaderLine} → IsValue v → AllHeaders hs → AllHeaders (host v ∷ hs)
  with_upgrade :
      {v : Bytes} {hs : List HeaderLine} → IsValue v → AllHeaders hs → AllHeaders (upgrade v ∷ hs)
  with_connection :
      {v : Bytes} {hs : List HeaderLine}
      → IsValue v
      → AllHeaders hs
      → AllHeaders (connection v ∷ hs)
  with_settings :
      {v : Bytes} {hs : List HeaderLine} → AllHeaders hs → AllHeaders (http2_settings v ∷ hs)
  with_other :
      {l : Bytes} {hs : List HeaderLine} → IsOther l → AllHeaders hs → AllHeaders (other l ∷ hs)

-- The last host that is named.
abbrev pub last_host : Option Bytes → List HeaderLine → Option Bytes
last_host h [] = h
last_host h (host v ∷ hs) = last_host (some v) hs
last_host h (_ ∷ hs) = last_host h hs

abbrev pub asks_for_h2c : HeaderLine → Bool
asks_for_h2c (upgrade v) = eq_ignore_case v (codes "h2c")
asks_for_h2c _ = false

abbrev pub asks_to_upgrade : HeaderLine → Bool
asks_to_upgrade (connection v) = contains_ignore_case v (codes "upgrade")
asks_to_upgrade _ = false

abbrev pub has_settings : HeaderLine → Bool
has_settings (http2_settings v) = true
has_settings _ = false

pub host_seen :
    (seen : Seen) (v : Bytes)
    → IsValue v
    → process_line seen (trim_start (line_of (host v))) ≡ record seen { host = some v }
unfolding process_line trim_start is_whitespace eq_ignore_case
host_seen seen v h = rw (le→leb 5 (length (line_of (host v))) (omega arith), value_read v h) refl

-- The names that are tested before the one that a line has.
upgrade_is_not_host : eq_ignore_case (codes "Upgra") (codes "Host:") ≡ false
unfolding eq_ignore_case
upgrade_is_not_host = refl

upgrade_is_upgrade : eq_ignore_case (codes "Upgrade:") (codes "Upgrade:") ≡ true
unfolding eq_ignore_case
upgrade_is_upgrade = refl

connection_is_not_host : eq_ignore_case (codes "Conne") (codes "Host:") ≡ false
unfolding eq_ignore_case
connection_is_not_host = refl

connection_is_not_upgrade : eq_ignore_case (codes "Connecti") (codes "Upgrade:") ≡ false
unfolding eq_ignore_case
connection_is_not_upgrade = refl

connection_is_connection : eq_ignore_case (codes "Connection:") (codes "Connection:") ≡ true
unfolding eq_ignore_case
connection_is_connection = refl

pub or_true : (a : Bool) → (a || true) ≡ true
or_true true = refl
or_true false = refl

pub or_false_lem : (a : Bool) → (a || false) ≡ a
or_false_lem true = refl
or_false_lem false = refl

pub or_assoc : (a b c : Bool) → ((a || b) || c) ≡ (a || (b || c))
or_assoc true b c = refl
or_assoc false b c = refl

and_false : (a : Bool) → (a && false) ≡ false
and_false true = refl
and_false false = refl

h2c_noted :
    (seen : Seen) (t : Bool)
    → (if t then record seen { has_upgrade_h2c = true } else seen)
      ≡ record seen { has_upgrade_h2c = seen.has_upgrade_h2c || t }
h2c_noted seen true =
    ap (λ x. record seen { has_upgrade_h2c = x }) (sym (or_true seen.has_upgrade_h2c))
h2c_noted seen false =
    ap (λ x. record seen { has_upgrade_h2c = x }) (sym (or_false_lem seen.has_upgrade_h2c))

connection_noted :
    (seen : Seen) (t : Bool)
    → (if t then record seen { has_connection_upgrade = true } else seen)
      ≡ record seen { has_connection_upgrade = seen.has_connection_upgrade || t }
connection_noted seen true =
    ap (λ x. record seen { has_connection_upgrade = x }) (sym (or_true seen.has_connection_upgrade))
connection_noted seen false =
    ap (λ x. record seen { has_connection_upgrade = x })
      (sym (or_false_lem seen.has_connection_upgrade))

pub upgrade_seen :
    (seen : Seen) (v : Bytes)
    → IsValue v
    → process_line seen (trim_start (line_of (upgrade v)))
      ≡ record seen { has_upgrade_h2c = seen.has_upgrade_h2c || eq_ignore_case v (codes "h2c") }
unfolding process_line trim_start is_whitespace
upgrade_seen seen v h =
    rw
      (
        le→leb 5 (length (line_of (upgrade v))) (omega arith),
        le→leb 8 (length (line_of (upgrade v))) (omega arith),
        upgrade_is_not_host,
        upgrade_is_upgrade,
        value_read v h,
      )
      (h2c_noted seen (eq_ignore_case v (codes "h2c")))

pub connection_seen :
    (seen : Seen) (v : Bytes)
    → IsValue v
    → process_line seen (trim_start (line_of (connection v))) ≡ record seen {
      has_connection_upgrade =
          seen.has_connection_upgrade || contains_ignore_case v (codes "upgrade");
    }
unfolding process_line trim_start is_whitespace
connection_seen seen v h =
    rw
      (
        le→leb 5 (length (line_of (connection v))) (omega arith),
        le→leb 8 (length (line_of (connection v))) (omega arith),
        le→leb 11 (length (line_of (connection v))) (omega arith),
        connection_is_not_host,
        connection_is_not_upgrade,
        connection_is_connection,
        value_read v h,
      )
      (connection_noted seen (contains_ignore_case v (codes "upgrade")))

pub settings_seen :
    (seen : Seen) (v : Bytes)
    → process_line seen (trim_start (line_of (http2_settings v)))
      ≡ record seen { has_http2_settings = true }
unfolding process_line trim_start is_whitespace eq_ignore_case
settings_seen seen v =
    rw
      (
        le→leb 5 (length (line_of (http2_settings v))) (omega arith),
        le→leb 8 (length (line_of (http2_settings v))) (omega arith),
        le→leb 11 (length (line_of (http2_settings v))) (omega arith),
        le→leb 15 (length (line_of (http2_settings v))) (omega arith),
      )
      refl

trim_start_lem : (b : ℕ) (bs : Bytes) → is_whitespace b ≡ false → trim_start (b ∷ bs) ≡ b ∷ bs
unfolding trim_start
trim_start_lem b bs no_space = rw no_space refl

not_indented : (l : Bytes) → IsOther l → trim_start l ≡ l
not_indented l o =
    subst (λ x. trim_start x ≡ x) (sym o.whole) (trim_start_lem o.front o.behind o.no_space)

pub other_seen :
    (seen : Seen) (l : Bytes)
    → IsOther l
    → process_line seen (trim_start (line_of (other l))) ≡ seen
unfolding process_line
other_seen seen l o =
    rw
      (
        not_indented l o,
        o.no_host,
        o.no_upgrade,
        o.no_connection,
        o.no_settings,
        and_false (leb 5 (length l)),
        and_false (leb 8 (length l)),
        and_false (leb 11 (length l)),
        and_false (leb 15 (length l)),
      )
      refl
