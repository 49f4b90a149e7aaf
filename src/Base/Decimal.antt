-- ===== src/Base/Decimal.antt =====
-- `%d` of a number that is not negative.
use Prim.Native.Nat.{ℕ, zero, suc, ◌/◌, ◌%◌}
use Prim.Native.String.{String, ◌++◌ as ◌<>◌}
use chef_infra.Base.Tests.{ltb, nat_eq, if◌then◌else◌}

digit : ℕ → String
digit d =
    if nat_eq d 0
    then "0"
    else if nat_eq d 1
    then "1"
    else if nat_eq d 2
    then "2"
    else if nat_eq d 3
    then "3"
    else if nat_eq d 4
    then "4"
    else if nat_eq d 5
    then "5"
    else if nat_eq d 6
    then "6"
    else if nat_eq d 7
    then "7"
    else if nat_eq d 8
    then "8"
    else "9"

-- The digits of `n` before those written. A number has fewer digits than its successor's value.
write : ℕ → ℕ → String → String
write zero n written = written
write (suc fuel) n written =
    let rest = write fuel (n / 10) (digit (n % 10) <> written) in
    if ltb n 10 then digit n <> written else rest

unfoldable pub decimal : ℕ → String
unfolding write digit
decimal n = write (suc n) n ""
