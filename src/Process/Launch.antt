-- ===== src/Process/Launch.antt =====
-- src/proc_host.rs: the environment and the arguments that a child process is started with.
use odd_box.Base.{
  ◌∷◌, ◌++◌, [], length, drop, take, bytes_eq, if◌then◌else◌, insert, zero, suc, List, Option,
  Bytes, ℕ,
}
use odd_box.Config.Sites.{or_empty, EnvVar}
use odd_box.Config.Ports.{to_decimal}
use odd_box.Http1.Message.{codes}

abbrev pub Environment : Type 0
Environment = List (Bytes × Bytes)

unfoldable pub add_variables : List EnvVar → Environment → Environment
add_variables [] env = env
add_variables (v ∷ vs) env = add_variables vs (insert v.key v.value env)

-- The global variables, the process's own over them, and the port over all.
unfoldable pub environment : List EnvVar → Option (List EnvVar) → ℕ → Environment
environment globals own port =
    insert (codes "PORT") (to_decimal port)
      (add_variables (or_empty own) (add_variables globals []))

-- `str::replace` with a pattern that is not empty; a match takes a byte at least, so the length is fuel enough.
replace_from : ℕ → Bytes → Bytes → Bytes → Bytes
replace_from zero pattern by [] = []
replace_from zero pattern by (b ∷ bs) = b ∷ bs
replace_from (suc fuel) pattern by [] = []
replace_from (suc fuel) pattern by (b ∷ bs) =
    let here = by ++ replace_from fuel pattern by (drop (length pattern) (b ∷ bs)) in
    let there = b ∷ replace_from fuel pattern by bs in
    if bytes_eq (take (length pattern) (b ∷ bs)) pattern then here else there

unfoldable pub replace : Bytes → Bytes → Bytes → Bytes
unfolding replace_from
replace text pattern by = replace_from (length text) pattern by text

unfoldable pub arguments : List Bytes → ℕ → List Bytes
arguments [] port = []
arguments (a ∷ rest) port = replace a (codes "$port") (to_decimal port) ∷ arguments rest port
