-- ===== src/Routing/Names.antt =====
-- Host names: `ReverseTcpProxy::get_subdomain` of src/tcp_proxy/tcp.rs, and `filter_fun` of src/main.rs.
-- `str::to_uppercase` is a parameter.
pub mod Labels
use odd_box.Base.{
  ends_with, zero, take, index, panic, ◌-◌, [], drop, ltb, suc, ◌>>=◌, ◌∷◌, none, some, ◌&&◌,
  bytes_eq, eq_ignore_case, length, ok, ◌==◌, Option, if◌then◌else◌, leb, Bool, Exec, Bytes, ℕ,
}

abbrev pub dot : ℕ
dot = b'.'

abbrev pub drop_dot : ℕ → Bytes → Bytes
drop_dot b [] = if b == dot then [] else b ∷ []
drop_dot b (c ∷ cs) = b ∷ c ∷ cs

-- `trim_end_matches('.')`
unfoldable pub trim_dots : Bytes → Bytes
trim_dots [] = []
trim_dots (b ∷ bs) = drop_dot b (trim_dots bs)

-- `split(":").next()`
unfoldable pub before_colon : Bytes → Bytes
before_colon [] = []
before_colon (b ∷ bs) = let rest = before_colon bs in if b == b':' then [] else b ∷ rest

module _ (to_uppercase : Bytes → Bytes) where
  -- The part in front of the backend's name: the whole, or up to a dot. A backend's name that is longer
  -- than the requested one makes the subtraction of lengths wrap, and the index after it panic.
  unfoldable pub front_of : Bytes → ℕ → Exec (Unit {0}) (Option Bytes)
  front_of requested zero = ok (some [])
  front_of requested (suc last) = do
    b ← index requested last
    if b == dot then ok (some (trim_dots (take (suc last) requested))) else ok none

  unfoldable pub get_subdomain : Bytes → Bytes → Exec (Unit {0}) (Option Bytes)
  get_subdomain requested backend =
      if bytes_eq requested backend
      then ok none
      else if ends_with (to_uppercase requested) (to_uppercase backend)
      then (if ltb (length requested) (length backend)
          then panic
          else front_of requested (length requested - length backend))
      else ok none

  -- `some none` for the name itself, `some (some subdomain)` for a name below it.
  unfoldable pub filter_fun : Bytes → Bytes → Bool → Exec (Unit {0}) (Option (Option Bytes))
  filter_fun requested target allow_subdomains =
      let name = before_colon requested in
      if eq_ignore_case target name
      then ok (some none)
      else if allow_subdomains
      then (get_subdomain name target >>= λ r. ok (elim r [ none ↦ none | some s ↦ some (some s) ]))
      else ok none
