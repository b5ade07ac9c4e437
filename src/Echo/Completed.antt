-- ===== src/Echo/Completed.antt =====
-- What a look at the transmit queue's used ring does to the slots: exactly those that the device has
-- reported are free afterwards.
mod Tests
use advcpp.Prelude.{
  ℕ, zero, suc, ◌+◌, ◌%◌, ◌^◌, ◌<◌, ◌≤◌, ◌≡◌, refl, sym, ap, ◌∙◌, inl, inr, Bool, true, false, ◌&&◌,
  ◌||◌, not, Bool-cases, List, [], ◌∷◌, length, length-set, get_or, get_or-set, ltb, leb, ◌==◌,
  ==→eq, if◌then◌else◌, u16, u32, arith,
}
use advcpp.Memory.{Memory}
use advcpp.Receive.{read_used_idx, used_delta, read_used_elem, used_slot_at}
use advcpp.Echo.{
  TxSlot, Setup, Echo, Device, look, complete_slot, complete_slots, consume_tx_completions,
}
use advcpp.Echo.Slots.{is_in_flight, taken, free}

-- The ids that the used ring has from element number `i` behind `start` on.
pub reported : Setup → Memory → ℕ → ℕ → ℕ → List ℕ
reported s m start i zero = []
reported s m start i (suc left) =
    (read_used_elem m s.tx_queue_base s.layout.tx_vring (used_slot_at s.layout.tx_vring start i)).id
    ∷ reported s m start (i + 1) left

abbrev pub is_reported : ℕ → List ℕ → Bool
is_reported j [] = false
is_reported j (id ∷ ids) = id == j || is_reported j ids

-- How many of them are slots of a pool of so many.
abbrev pub inside_pool : ℕ → List ℕ → ℕ
inside_pool pool [] = 0
inside_pool pool (id ∷ ids) = if ltb id pool then inside_pool pool ids + 1 else inside_pool pool ids

-- The slots and the count after such ids, and what stays.
pub record IsFreed (ids : List ℕ) (c c' : Echo) : Type 0 where
  pub slots :
      (j : ℕ)
      → j < length c.tx_slots
      → is_in_flight c'.tx_slots j ≡ (is_in_flight c.tx_slots j && not (is_reported j ids))
  pub count :
      c'.completed_tx % 2 ^ 32 ≡ (c.completed_tx + inside_pool (length c.tx_slots) ids) % 2 ^ 32
  pub pool : length c'.tx_slots ≡ length c.tx_slots
  pub memory : c'.memory ≡ c.memory
  pub last : c'.last_tx_used_idx ≡ c.last_tx_used_idx

and_true : (b : Bool) → (b && true) ≡ b
and_true true = refl
and_true false = refl

-- The flag of one slot after the slot `id` was freed.
freed_flag :
    (slots : List TxSlot) (id j : ℕ)
    → (if id == j then free else get_or slots j taken).in_flight
      ≡ (is_in_flight slots j && not (id == j || false))
freed_flag slots id j = elim (Bool-cases (id == j)) [
  | inl e ↦ rw e (sym (and_false (is_in_flight slots j)))
  | inr e ↦ rw e (sym (and_true (is_in_flight slots j)))
]
  where
    and_false : (b : Bool) → (b && false) ≡ false
    and_false true = refl
    and_false false = refl

module _ (s : Setup) where
  complete_slot-IsFreed :
      (slot : ℕ) (c : Echo)
      → IsFreed
          ((read_used_elem c.memory s.tx_queue_base s.layout.tx_vring slot).id ∷ [])
          c
          (complete_slot s slot c)
  unfolding complete_slot
  complete_slot-IsFreed slot c =
      let id = (read_used_elem c.memory s.tx_queue_base s.layout.tx_vring slot).id in
      elim (Bool-cases (leb (length c.tx_slots) id)) [
        | inl outside ↦
            rw (outside, complete_slot)
              (record {
                slots = λ j inside. ground arith;
                count = ground arith;
                pool = refl;
                memory = refl;
                last = refl;
              })
        | inr inside ↦
            rw (inside, complete_slot)
              (record {
                slots = λ j small.
                    ap (λ (slot : TxSlot). slot.in_flight)
                      (get_or-set c.tx_slots id j free taken (ground arith))
                    ∙ freed_flag c.tx_slots id j;
                count = ground arith;
                pool = length-set c.tx_slots id free;
                memory = refl;
                last = refl;
              })
      ]

  -- Elements one after the other.
  IsFreed-append :
      (id : ℕ) (ids : List ℕ) {c d c' : Echo}
      → IsFreed (id ∷ []) c d
      → IsFreed ids d c'
      → IsFreed (id ∷ ids) c c'
  IsFreed-append id ids {c} {d} {c'} h k = record {
    slots = λ j small.
        k.slots j (omega (arith, h.pool))
        ∙ ap (λ (b : Bool). b && not (is_reported j ids)) (h.slots j small)
        ∙ both (is_in_flight c.tx_slots j) (id == j) (is_reported j ids);
    count = ground (arith, h.count, k.count, h.pool);
    pool = k.pool ∙ h.pool;
    memory = k.memory ∙ h.memory;
    last = k.last ∙ h.last;
  }
    where
      both : (a b r : Bool) → (a && not (b || false)) && not r ≡ (a && not (b || r))
      both true true r = refl
      both true false r = refl
      both false b r = refl

  complete_slots-IsFreed :
      (i left : ℕ) (c : Echo)
      → IsFreed (reported s c.memory c.last_tx_used_idx i left) c (complete_slots s i left c)
  unfolding complete_slots reported
  complete_slots-IsFreed i zero c = record {
    slots = λ j small. sym (and_true (is_in_flight c.tx_slots j));
    count = ground arith;
    pool = refl;
    memory = refl;
    last = refl;
  }
  complete_slots-IsFreed i (suc left) c =
      let slot = used_slot_at s.layout.tx_vring c.last_tx_used_idx i in
      let d = complete_slot s slot c in
      let h = complete_slot-IsFreed slot c in
      let k = complete_slots-IsFreed (i + 1) left d in
      let same : reported s d.memory d.last_tx_used_idx (i + 1) left
          ≡ reported s c.memory c.last_tx_used_idx (i + 1) left =
        rw (h.memory, h.last) refl in
      IsFreed-append _ (reported s c.memory c.last_tx_used_idx (i + 1) left) h (rw same at k)

module _ (device : Device) (s : Setup) where
  -- A look at the transmit queue counts and frees exactly the slots of the pool whose ids the device
  -- has reported between the used index that was seen last and the new one, ignores every other id,
  -- changes no other slot and no byte of the memory, and remembers the new index.
  pub consume_tx_completions-frees :
      (c : Echo)
      → let m = device c.looks c.memory in
        let current = read_used_idx m s.tx_queue_base s.layout.tx_vring in
        let count = used_delta c.last_tx_used_idx current in
        (freed : Echo) × IsFreed (reported s m c.last_tx_used_idx 0 count) (look device c) freed
        × (consume_tx_completions device s c ≡ record freed {
          last_tx_used_idx = if count == 0 then c.last_tx_used_idx else current;
        })
  unfolding consume_tx_completions complete_slots reported
  consume_tx_completions-frees c =
      let c' = look device c in
      let current = read_used_idx c'.memory s.tx_queue_base s.layout.tx_vring in
      let count = used_delta c.last_tx_used_idx current in
      elim (Bool-cases (count == 0)) [
        | inr some_new ↦
            (complete_slots s 0 count c', complete_slots-IsFreed s 0 count c', rw some_new refl)
        | inl no_new ↦
            let nothing : count ≡ 0 = ==→eq count 0 no_new in
            (
              c',
              rw nothing (complete_slots-IsFreed s 0 0 c'),
              rw (consume_tx_completions, no_new) refl,
            )
      ]
