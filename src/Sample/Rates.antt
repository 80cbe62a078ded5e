-- ===== src/Sample/Rates.antt =====
-- Each theorem applied at concrete inputs: messages that are sent back at a rate.
use spiped.Base.{true, refl, arith, ◌≡◌, some, List, [], ◌∷◌, take, drop}
use spiped.Primitives.{Bytes}
use spiped.NcServer.{Tick, whole, short, succeeds, send_bursts, write_bps, main}
use spiped.NcServer.Rate.{Within, Sends, write_bps-Sends}

abbrev message : Bytes
message = 1 ∷ 2 ∷ 3 ∷ 4 ∷ 5 ∷ []

-- The clock allows two bytes, then no more, and then ten.
abbrev ticks : List Tick
ticks =
    record { goal_send = some 2; write = whole }
    ∷ record { goal_send = some 1; write = whole }
    ∷ record { goal_send = some 10; write = whole }
    ∷ []

all_allowed : Within 10 ticks
all_allowed = ((omega arith, tt), ((omega arith, tt), ((omega arith, tt), tt)))

write_bps-Sends_example : Sends message 10 (write_bps true ticks message)
write_bps-Sends_example = write_bps-Sends true 10 ticks message all_allowed

sends_all : write_bps true ticks message ≡ succeeds message
unfolding write_bps send_bursts take drop
sends_all = refl

-- One byte of three is written, and the loop goes on as if all had been.
loses :
    write_bps true (record { goal_send = some 3; write = short 1 } ∷ ticks) message
    ≡ succeeds (1 ∷ 4 ∷ 5 ∷ [])
unfolding write_bps send_bursts take drop
loses = refl

-- With no third argument, and with a rate that is refused.
runs : main 3 (some 0) true true true 3 ≡ (0, 3)
unfolding main
runs = refl

refused : main 4 (some 150) true true true 3 ≡ (1, 3)
unfolding main
refused = refl
