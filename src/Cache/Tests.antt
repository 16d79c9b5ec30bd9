-- ===== src/Cache/Tests.antt =====
-- A concrete history, and the theorems at it.
use mcp_operator.Prelude.{ℕ, ◌≡◌, none, some, List, [], ◌∷◌, arith, All, ℤ, pos, ◌≤ℤ◌}
use mcp_operator.Cache.{get_registry, get_mcp_server, get_registry_servers}
use mcp_operator.Cache.History.{promised}
use mcp_operator.Cache.Commands.{
  Command, write_registry, drop_server, sweep_all, served, get-promised,
}

abbrev history : List (ℤ × Command ℕ ℕ)
history =
    (pos 9, sweep_all)
    ∷ (pos 8, drop_server "b")
    ∷ (pos 5, write_registry "a" 2 (pos 10))
    ∷ (pos 1, write_registry "a" 1 (pos 100))
    ∷ []

in_the_past : All (λ (x : ℤ × Command ℕ ℕ). x.0 ≤ℤ pos 12) history
in_the_past = (omega arith, (omega arith, (omega arith, (omega arith, tt))))

get-promised_example :
    ((get_registry (pos 12) "a" (served history)).0 ≡ some 2)
    × ((get_mcp_server (pos 12) "a" (served history)).0 ≡ none)
    × ((get_registry_servers (pos 12) "a" (served history)).0 ≡ none)
unfolding promised
get-promised_example = get-promised (pos 12) "a" history in_the_past
