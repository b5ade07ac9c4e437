-- ===== src/Capabilities/Info/Tests.antt =====
-- A region of one area.
use advcpp.Prelude.{ℕ, ◌≡◌, refl, List, [], ◌∷◌, ◌==◌, if◌then◌else◌, Result, ok, some, arith}
use advcpp.Memory.{Memory, read_le}
use advcpp.Region.{MmapArea}
use advcpp.Capabilities.Info.{get_region_info}
use advcpp.Capabilities.Info.Listed.{
  Extends, Chain, sparse, Answers, listed, get_region_info-Answers,
}

-- A region of 12288 bytes that may be read, written and mapped, with a sparse capability at
-- byte 32 of the answer.
abbrev answer : Memory
answer x =
    if x == 0
    then 64
    else if x == 4
    then 15
    else if x == 12
    then 32
    else if x == 17
    then 0x30
    else if x == 32
    then 1
    else if x == 40
    then 1
    else if x == 49
    then 0x10
    else if x == 57
    then 0x20
    else 0

abbrev ask_answer : ℕ → ℕ → Result Memory
ask_answer argsz index = ok answer

abbrev answer_caps : List (List MmapArea)
answer_caps = (record { offset = 0x1000; size = 0x2000 } ∷ []) ∷ []

answer-Extends : Extends 2 ask_answer 0 answer
unfolding read_le
answer-Extends = record { asked = refl; caps = λ e. absurd (omega arith); longer = omega arith }

answer-Chain : Chain answer 64 32 answer_caps
unfolding read_le
answer-Chain = (λ e. absurd (omega arith), sparse refl refl (omega arith) (refl, refl, tt), refl)

-- What the kernel answers to both calls.
answers : Answers 2 ask_answer 0 (
    ok (record {
      flags = 15;
      size = 0x3000;
      offset = 0;
      mmap_areas = record { offset = 0x1000; size = 0x2000 } ∷ [];
    }))
unfolding read_le
answers =
    listed answer_caps answer-Extends refl (λ e. absurd (omega arith)) answer-Chain (omega arith)

get_region_info-Answers_example :
    get_region_info 2 ask_answer 0
    ≡ some (
        ok (record {
          flags = 15;
          size = 0x3000;
          offset = 0;
          mmap_areas = record { offset = 0x1000; size = 0x2000 } ∷ [];
        }))
get_region_info-Answers_example = get_region_info-Answers 2 ask_answer 0 answers
