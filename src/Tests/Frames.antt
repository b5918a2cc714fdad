-- ===== src/Tests/Frames.antt =====
-- Frames of a codec of two messages.
use lin_sight.Base.{refl, arith, ◌≡◌, ◌≢◌, ◌↔◌, ◌+◌, ℕ, List, [], ◌∷◌, ◌++◌, length, max}
use lin_sight.Messages.{ServerMsg, Reply, response, bye, pump_interval_set}
use lin_sight.Messages
use lin_sight.Frame.{Source, eof, panic, read_frame}
use lin_sight.Frame.Bytes.{to_le_bytes, of_le_bytes}
use lin_sight.Frame.Sound.{read_frame_panics}
use lin_sight.Frame.Write.{Reserves, fit_rounds, sent, write_frame}
use lin_sight.Frame.RoundTrip.{Reads, nothing, more, read-write_frame}
use lin_sight.Frame.Response.{spins, replied, read_server_response}
use lin_sight.Frame.Response.Wait.{is_noise, response_is_found}
use lin_sight.Frame.Response.Ends.{wait_ends}
use lin_sight.Tests.Fixtures.{Rate, small, small_law, small-Tagged}

abbrev double : ℕ → ℕ
double cap = cap + max cap 256

double-Reserves : Reserves double
double-Reserves cap = omega arith

abbrev source_of : List ℕ → Source
source_of bytes = record { bytes = bytes; ending = eof }

abbrev answer : ℕ → Reply Rate ℕ
answer n = Messages.Reply.ok (pump_interval_set n)

-- The answers to the requests 1 and 2.
abbrev first_frame : List ℕ
first_frame = 3 ∷ 0 ∷ 0 ∷ 0 ∷ 5 ∷ 1 ∷ 40 ∷ []

abbrev second_frame : List ℕ
second_frame = 3 ∷ 0 ∷ 0 ∷ 0 ∷ 5 ∷ 2 ∷ 50 ∷ []

first_sent : write_frame small double 256 (response 1 (answer 40)) ≡ sent first_frame 256
unfolding write_frame fit_rounds to_le_bytes
first_sent = refl

second_sent : write_frame small double 256 (response 2 (answer 50)) ≡ sent second_frame 256
unfolding write_frame fit_rounds to_le_bytes
second_sent = refl

read_frame_panics_example : (read_frame (source_of (0 ∷ 0 ∷ 0 ∷ 0 ∷ 1 ∷ [])) ≡ panic) ↔ (
    (prefix : List ℕ) × (b : ℕ) × (rest : List ℕ) × (length prefix ≡ 4)
    × (of_le_bytes prefix ≡ 0)
    × (0 ∷ 0 ∷ 0 ∷ 0 ∷ 1 ∷ [] ≡ prefix ++ b ∷ rest))
read_frame_panics_example = read_frame_panics (source_of (0 ∷ 0 ∷ 0 ∷ 0 ∷ 1 ∷ []))

read-write_frame_example :
    Reads small small_law
      (source_of (first_frame ++ second_frame))
      (response 1 (answer 40) ∷ response 2 (answer 50) ∷ [])
      (source_of [])
read-write_frame_example =
    read-write_frame small small_law double (source_of (first_frame ++ second_frame)) []
      double-Reserves
      (more 256 (response 1 (answer 40)) first_frame 256 first_sent
        (more 256 (response 2 (answer 50)) second_frame 256 second_sent nothing))
      refl

-- The client waits for the answer to 2 past the answer to 1.
response_is_found_example :
    read_server_response small 2 (source_of (first_frame ++ second_frame))
    ≡ replied (answer 50) (source_of [])
unfolding is_noise
response_is_found_example =
    response_is_found small small_law small-Tagged 2 double double-Reserves 256 (answer 50)
      second_frame 256 [] (source_of (first_frame ++ second_frame))
      (more 256 (response 1 (answer 40)) first_frame 256 first_sent nothing) (refl, tt) second_sent
      refl

wait_ends_example : read_server_response small 1 (source_of second_frame) ≢ spins
wait_ends_example = wait_ends small 1 (source_of second_frame)
