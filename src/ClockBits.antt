-- ===== src/ClockBits.antt =====
-- The calculation of the clock bits in user space, lib/raw/calculate-clock-bits.c: a search for dividers
-- and a loop filter that give a frequency (Search), and their encoding into the twenty bytes that the
-- driver shifts into the clock generator (Tables). `double` arithmetic is a parameter.
pub mod Tables
pub mod Search
pub mod Decode
pub mod Encode
pub mod Filter
pub mod Split
pub mod Output
pub mod RoundTrip
pub mod Finds
pub mod Sound
pub mod Least
pub mod Calculation
use synccom_linux.Prelude.{ℕ, Bool, Option, none, some, List, if◌then◌else◌, ltb, ◌||◌, ◌==◌, take}
use synccom_linux.ClockBits.Tables.{Solution, encode, initial_progdata}
use synccom_linux.ClockBits.Search.{Doubles, Found, found, exhausted, out_of_fuel, search}

-- What the tables return for a solution: the code, and on 0 the solution with `progdata`.
abbrev pub with_progdata : Solution → ℕ × List ℕ → Option (ℕ × Option (Solution × List ℕ))
with_progdata s (code, progdata) = some (code, (if code == 0 then some (s, progdata) else none))

-- The end of the search, and the tables behind it.
abbrev pub after_search : Found → Option (ℕ × Option (Solution × List ℕ))
after_search (found s) = with_progdata s (encode s initial_progdata)
after_search exhausted = some (2, none)
after_search out_of_fuel = none

-- `GetICS30703Data`: the code that it returns, and on 0 the solution with `progdata`. The three doubles of
-- the results are left out. `none` would be a search out of fuel.
unfoldable pub get_ics30703_data : Doubles → ℕ → ℕ → Option (ℕ × Option (Solution × List ℕ))
get_ics30703_data doubles desired ppm =
    if ltb desired 15000 || ltb 270000000 desired
    then some (1, none)
    else after_search (search doubles desired ppm)

-- `switch(t)`: 0 with the bytes in `progbytes`, or 1 with these as they were.
abbrev pub return_bits : List ℕ → Option (ℕ × Option (Solution × List ℕ)) → Option (ℕ × List ℕ)
return_bits progbytes none = none
return_bits progbytes (some (code, none)) = some (1, progbytes)
return_bits progbytes (some (code, some (s, progwords))) = some (0, take 20 progwords)

unfoldable pub calculate_clock_bits : Doubles → ℕ → ℕ → List ℕ → Option (ℕ × List ℕ)
calculate_clock_bits doubles freq ppm progbytes =
    return_bits progbytes (get_ics30703_data doubles freq ppm)
