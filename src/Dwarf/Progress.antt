-- ===== src/Dwarf/Progress.antt =====
-- What the reads, the instructions and their loop do to the position and the table, whatever they read.
use java_profiler.Base.{
  ℕ, zero, suc, ◌+◌, ◌-◌, ◌*◌, ◌≤◌, ◌<◌, ◌≡◌, refl, true, false, ◌==◌, leb, ltb, if◌then◌else◌,
  List, Option, none, some, arith, Bool-cases, inl, inr, ◌⊎◌, get_elem?, get_elem?-lt, length, Bool,
}
use java_profiler.CodeCache.{FrameDesc}
use java_profiler.Dwarf.Reading.{
  Run, ok, fault, M, pure, proceed, ◌>>=◌, get_ptr_at, read_at, record_or_fault, put_record,
  skip_bytes, get8, get16, get32, get_leb_loop, get_leb, get_sleb_loop, get_sleb, skip_loop,
  skip_leb, get_ptr,
}
use java_profiler.Dwarf.{DwarfParser, add_record_raw, same_layout, add_after, packable, add_record}

-- The entries have room, and `_prev` is the last of them, if there is one.
pub record IsSound (p : DwarfParser) : Type 0 where
  pub room : p.count ≤ p.capacity
  pub some_room : 0 < p.capacity
  pub last : ((p.prev ≡ none) × (p.count ≡ 0)) ⊎ ((i : ℕ) × (p.prev ≡ some i) × (p.count ≡ i + 1))

-- The run has a round left for every round that it takes, and an end has `P`.
pub data Ensures {A : Type 0} (P : DwarfParser → Type 0) : Run A → Type 0 where
  ended : {a : A} {p : DwarfParser} → P p → Ensures P (ok a p)
  faulted : Ensures P fault

-- From `p` the position moved `k` bytes at least, and the table stayed sound.
pub record Moves (k : ℕ) (p p' : DwarfParser) : Type 0 where
  pub moved : p.ptr + k ≤ p'.ptr
  pub sound : IsSound p → IsSound p'

abbrev pub Advances : {A : Type 0} → ℕ → M A → Type 0
Advances k m = (p : DwarfParser) → Ensures (Moves k p) (m p)

Moves-trans : (j k : ℕ) {p q r : DwarfParser} → Moves j p q → Moves k q r → Moves j p r
Moves-trans j k a b = record {
  moved = omega (arith, a.moved, b.moved);
  sound = λ s. b.sound (a.sound s);
}

pub Ensures-map :
    {A : Type 0} {P Q : DwarfParser → Type 0} {r : Run A}
    → ((q : DwarfParser) → P q → Q q)
    → Ensures P r
    → Ensures Q r
Ensures-map f (ended {a} {p} h) = ended (f p h)
Ensures-map f faulted = faulted

pub proceed-Ensures :
    {A B : Type 0} (k : ℕ) (p : DwarfParser) {r : Run A} (next : A → M B)
    → Ensures (Moves k p) r
    → ((a : A) (q : DwarfParser) → Moves k p q → Ensures (Moves 0 q) (next a q))
    → Ensures (Moves k p) (proceed next r)
proceed-Ensures k p next (ended {a} {p = q} m) h =
    Ensures-map (λ r n. Moves-trans k 0 m n) (h a q m)
proceed-Ensures k p next faulted h = faulted

-- Two runs, one after the other.
pub bind-Advances :
    {A B : Type 0} (k : ℕ) (m : M A) (next : A → M B)
    → Advances k m
    → ((a : A) → Advances 0 (next a))
    → Advances k (m >>= next)
bind-Advances k m next first rest p = proceed-Ensures k p next (first p) (λ a q m. rest a q)

pub keep : {p : DwarfParser} → Moves 0 p p
keep = record { moved = omega arith; sound = λ s. s }

-- A move of the position that leaves the table.
pub jump : (k n : ℕ) (p : DwarfParser) → p.ptr + k ≤ n → Moves k p (record p { ptr = n })
jump k n p le = record {
  moved = le;
  sound = λ s. record { room = s.room; some_room = s.some_room; last = s.last };
}

pub pure-Advances : {A : Type 0} (a : A) → Advances 0 (pure a)
pure-Advances a p = ended keep

pub skip_bytes-Advances : (n : ℕ) → Advances 0 (skip_bytes n)
unfolding skip_bytes
skip_bytes-Advances n p = ended (jump 0 (p.ptr + n) p (omega arith))

pub weaken : {A : Type 0} {m : M A} → Advances 1 m → Advances 0 m
weaken h p = Ensures-map (λ q s. record { moved = omega (arith, s.moved); sound = s.sound }) (h p)

-- A record keeps the table sound.
grown :
    (capacity n : ℕ)
    → n ≤ capacity
    → 0 < capacity
    → (n + 1 ≤ (if leb capacity n then capacity * 2 else capacity))
      × (0 < (if leb capacity n then capacity * 2 else capacity))
grown capacity n fits some_room = (ground arith, ground arith)

raw_at-IsSound :
    (p : DwarfParser) (d : FrameDesc) (n : ℕ)
    → n ≤ p.capacity
    → 0 < p.capacity
    → IsSound (add_record_raw (record p { count = n }) d)
unfolding add_record_raw
raw_at-IsSound p d n fits some_room = record {
  room = (grown p.capacity n fits some_room).0;
  some_room = (grown p.capacity n fits some_room).1;
  last = inr (n, refl, refl);
}

add_after-IsSound :
    (p : DwarfParser) (d : FrameDesc) (o : Option ℕ)
    → p.prev ≡ o
    → IsSound p
    → IsSound (add_after p d o)
unfolding add_after
add_after-IsSound p d none e s = raw_at-IsSound p d p.count s.room s.some_room
add_after-IsSound p d (some i) e s = elim (Bool-cases ((p.table i).loc == d.loc)) [
  | inl q ↦ rw q (raw_at-IsSound p d (p.count - 1) (omega (arith, s.room)) s.some_room)
  | inr q ↦ rw q (elim (Bool-cases (same_layout (p.table i) d)) [
    | inl r ↦ rw r s
    | inr r ↦ rw r (raw_at-IsSound p d p.count s.room s.some_room)
  ])
]

add_after-ptr : (p : DwarfParser) (d : FrameDesc) (o : Option ℕ) → (add_after p d o).ptr ≡ p.ptr
unfolding add_after add_record_raw
add_after-ptr p d none = refl
add_after-ptr p d (some i) = ground arith

recorded :
    (p : DwarfParser) (d : FrameDesc) (fine : Bool)
    → Ensures (Moves 0 p) (record_or_fault (if fine then some (add_after p d p.prev) else none))
unfolding record_or_fault
recorded p d true = ended (record {
  moved = omega (arith, add_after-ptr p d p.prev);
  sound = add_after-IsSound p d p.prev refl;
})
recorded p d false = faulted

pub put_record-Advances :
    (loc cfa_reg cfa_off fp_off pc_off : ℕ)
    → Advances 0 (put_record loc cfa_reg cfa_off fp_off pc_off)
unfolding put_record add_record
put_record-Advances loc cfa_reg cfa_off fp_off pc_off p = recorded p _ (packable cfa_reg cfa_off)

module _ (image : List ℕ) where
  read : (o : Option ℕ) → Advances 1 (read_at o)
  unfolding read_at
  read none p = faulted
  read (some b) p = ended (jump 1 (p.ptr + 1) p (omega arith))

  pub get8-Advances : Advances 1 (get8 image)
  unfolding get8
  get8-Advances p = read (get_elem? image p.ptr) p

  pub get16-Advances : Advances 1 (get16 image)
  unfolding get16
  get16-Advances =
      bind-Advances 1 (get8 image) _ get8-Advances
        (λ a. bind-Advances 0 (get8 image) _ (weaken get8-Advances) (λ b. pure-Advances _))

  pub get32-Advances : Advances 1 (get32 image)
  unfolding get32
  get32-Advances =
      bind-Advances 1 (get16 image) _ get16-Advances
        (λ a. bind-Advances 0 (get16 image) _ (weaken get16-Advances) (λ b. pure-Advances _))

  -- A read, and another one in the loops that go on while a digit has its mark.
  pub one_more :
      {A : Type 0} (b : ℕ) (a : A) (rest : M A)
      → Advances 0 rest
      → Advances 0 (if ltb b 0x80 then pure a else rest)
  one_more b a rest h = elim (Bool-cases (ltb b 0x80)) [
    | inl e ↦ rw e (pure-Advances a)
    | inr e ↦ rw e h
  ]

  get_leb_loop-Advances :
      (left shift result : ℕ) → Advances 1 (get_leb_loop image left shift result)
  unfolding get_leb_loop
  get_leb_loop-Advances zero shift result p = faulted
  get_leb_loop-Advances (suc left) shift result p =
      bind-Advances 1 (get8 image) _ get8-Advances
        (λ b. one_more b _ _ (weaken (get_leb_loop-Advances left (shift + 7) _))) p

  pub get_leb-Advances : Advances 1 (get_leb image)
  unfolding get_leb
  get_leb-Advances = get_leb_loop-Advances 5 0 0

  get_sleb_loop-Advances :
      (left shift result : ℕ) → Advances 1 (get_sleb_loop image left shift result)
  unfolding get_sleb_loop
  get_sleb_loop-Advances zero shift result p = faulted
  get_sleb_loop-Advances (suc left) shift result p =
      bind-Advances 1 (get8 image) _ get8-Advances
        (λ b. one_more b _ _ (weaken (get_sleb_loop-Advances left (shift + 7) _))) p

  pub get_sleb-Advances : Advances 1 (get_sleb image)
  unfolding get_sleb
  get_sleb-Advances = get_sleb_loop-Advances 5 0 0

  pub get_ptr-Advances : Advances 1 (get_ptr image)
  unfolding get_ptr get_ptr_at
  get_ptr-Advances p = bind-Advances 1 (get32 image) _ get32-Advances (λ x. pure-Advances _) p

  -- A byte, and a run at the position behind it.
  pub first_byte :
      {A : Type 0} (next : ℕ → M A) (p : DwarfParser)
      → ((b : ℕ)
          → p.ptr < length image
          → Ensures
              (Moves 0 (record p { ptr = p.ptr + 1 }))
              (next b (record p { ptr = p.ptr + 1 })))
      → Ensures (Moves 1 p) (proceed next (get8 image p))
  unfolding get8
  first_byte next p h = go (get_elem? image p.ptr) refl
    where
      go :
          (o : Option ℕ)
          → get_elem? image p.ptr ≡ o
          → Ensures (Moves 1 p) (proceed next (read_at o p))
      go none e = faulted
      go (some b) e =
          unfold read_at in
          Ensures-map (λ r m. Moves-trans 1 0 (jump 1 (p.ptr + 1) p (omega arith)) m)
            (h b (get_elem?-lt image p.ptr b e))

  skip_loop-Ensures :
      (fuel : ℕ) (p : DwarfParser)
      → length image < p.ptr + fuel
      → 0 < fuel
      → Ensures (Moves 0 p) (skip_loop image fuel p)
  unfolding skip_loop
  skip_loop-Ensures zero p rounds some_left = absurd (omega arith)
  skip_loop-Ensures (suc fuel) p rounds some_left =
      Ensures-map (λ q m. record { moved = omega (arith, m.moved); sound = m.sound })
        (first_byte _ p (λ b inside. elim (Bool-cases (ltb b 0x80)) [
          | inl e ↦ rw e (ended keep)
          | inr e ↦
              rw e
                (skip_loop-Ensures fuel (record p { ptr = p.ptr + 1 }) (omega arith) (omega arith))
        ]))

  pub skip_leb-Advances : Advances 0 (skip_leb image)
  unfolding skip_leb
  skip_leb-Advances p = skip_loop-Ensures (suc (length image)) p (omega arith) (omega arith)
