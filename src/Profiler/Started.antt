-- ===== src/Profiler/Started.antt =====
-- The engines that `start` activates, which are those that `stop` stops.
use java_profiler.Base.{
  Bool, true, false, not, ◌&&◌, ◌||◌, ==_refl, if◌then◌else◌, ◌≡◌, ◌⊎◌, refl, arith, Bool-cases,
  inl, inr,
}
use java_profiler.Profiler.{Engine, noop_engine, address, same, EventMask, Profiler, World}
use java_profiler.Profiler.Select.{is_error, select_alloc_engine}
use java_profiler.Profiler.Quiet.{choice}
use java_profiler.Profiler.Stopping.{stop_engine, stop_engines}
use java_profiler.Profiler.Engines.{start_engine, activate, activate_alloc, activate_all}

abbrev pub Flags : Type 0
Flags = Engine → Bool

-- The flags of the started engines when `e` may have been activated, which `b` tells.
record Activated (wanted : Bool) (e : Engine) (b : Bool) (old s : Flags) : Type 0 where
  kept : (x : Engine) → old x ≡ true → s x ≡ true
  only : (x : Engine) → s x ≡ true → (old x ≡ true) ⊎ ((wanted ≡ true) × (same x e ≡ true))
  idle : b ≡ false → (x : Engine) → s x ≡ true → old x ≡ true
  busy : b ≡ true → s e ≡ true

-- A started engine is one that the mask asks for.
abbrev pub IsCovered : EventMask → (cpu wall alloc : Engine) → Flags → Type 0
IsCovered m cpu wall alloc s =
    (x : Engine)
    → s x ≡ true
    → ((m.cpu ≡ true) × (same x cpu ≡ true))
      ⊎ (((m.wall ≡ true) × (same x wall ≡ true)) ⊎ ((m.alloc ≡ true) × (same x alloc ≡ true)))

abbrev with_flags : Profiler → Flags → Profiler
with_flags p s = record p { started = s }

abbrev set_flag : Engine → Bool → Flags → Flags
set_flag e b old x = if same x e then b else old x

set_flag-elim :
    (e : Engine) (b : Bool) (old : Flags) (x : Engine) {v : Bool}
    → set_flag e b old x ≡ v
    → ((same x e ≡ true) × (b ≡ v)) ⊎ ((same x e ≡ false) × (old x ≡ v))
set_flag-elim e b old x h = elim (Bool-cases (same x e)) [
  | inl at ↦ inl (at, rw at at h)
  | inr off ↦ inr (off, rw off at h)
]

set_flag_on : (e : Engine) (old : Flags) (x : Engine) → old x ≡ true → set_flag e true old x ≡ true
set_flag_on e old x on = elim (Bool-cases (same x e)) [ inl at ↦ rw at refl | inr off ↦ rw off on ]

-- What a try at an engine gives.
abbrev Tried : (wanted : Bool) (e : Engine) → Profiler → Bool × Profiler → Type 0
Tried wanted e p r = (s : Flags) × (r.1 ≡ with_flags p s) × Activated wanted e r.0 p.started s

not-Tried : (wanted : Bool) (e : Engine) (p : Profiler) → Tried wanted e p (false, p)
not-Tried wanted e p = (
  p.started,
  refl,
  record {
    kept = λ x on. on;
    only = λ x on. inl on;
    idle = λ _ x on. on;
    busy = λ no. absurd (cc);
  },
)

start_engine-Tried :
    (w : World) (wanted : Bool) (e : Engine) (p : Profiler)
    → wanted ≡ true
    → Tried wanted e p (start_engine w e p)
unfolding start_engine
start_engine-Tried w wanted e p asked =
    choice (Tried wanted e p) (is_error (w.start e)) (λ _. not-Tried wanted e p)
      (λ _. (
        set_flag e true p.started,
        refl,
        record {
          kept = λ x on. set_flag_on e p.started x on;
          only = λ x on. elim (set_flag-elim e true p.started x on) [
            | inl (at, _) ↦ inr (asked, at)
            | inr (_, old) ↦ inl old
          ];
          idle = λ no. absurd (cc);
          busy = λ _. rw (==_refl (address e)) refl;
        },
      ))

both_true : (a b : Bool) → (a && b) ≡ true → a ≡ true
both_true a b h = ground arith

activate-Tried :
    (w : World) (wanted : Bool) (e : Engine) (p : Profiler)
    → Tried wanted e p (activate w wanted e p)
unfolding activate
activate-Tried w wanted e p =
    choice (Tried wanted e p) (wanted && not (same e noop_engine))
      (λ h. start_engine-Tried w wanted e p (both_true wanted _ h)) (λ _. not-Tried wanted e p)

-- The engines after all tries: which of them run, and that one does if a try succeeded.
pub record AllTried (m : EventMask) (cpu wall alloc : Engine) (b : Bool) (s : Flags) : Type 0 where
  pub covered : IsCovered m cpu wall alloc s
  pub idle : b ≡ false → (x : Engine) → s x ≡ true → ⊥
  pub busy : b ≡ true → (x : Engine) × (s x ≡ true)

some_true : (a b c : Bool) → (a || b || c) ≡ true → (a ≡ true) ⊎ ((b ≡ true) ⊎ (c ≡ true))
some_true true b c h = inl refl
some_true false true c h = inr (inl refl)
some_true false false c h = inr (inr h)

three_tried :
    {m : EventMask} {cpu wall alloc : Engine} {b1 b2 b3 : Bool} {s0 s1 s2 s3 : Flags}
    → ((x : Engine) → s0 x ≡ false)
    → Activated m.cpu cpu b1 s0 s1
    → Activated m.wall wall b2 s1 s2
    → Activated m.alloc alloc b3 s2 s3
    → AllTried m cpu wall alloc (b1 || b2 || b3) s3
three_tried {m} {cpu} {wall} {alloc} {b1} {b2} {b3} off a1 a2 a3 = record {
  covered = λ x on. elim (a3.only x on) [
    | inr c ↦ inr (inr c)
    | inl on2 ↦ elim (a2.only x on2) [
      | inr c ↦ inr (inl c)
      | inl on1 ↦ elim (a1.only x on1) [ inr c ↦ inl c | inl on0 ↦ absurd (let no = off x in cc) ]
    ]
  ];
  idle = λ h x on.
      let none3 : b3 ≡ false = ground arith in
      let none2 : b2 ≡ false = ground arith in
      let none1 : b1 ≡ false = ground arith in
      let on0 = a1.idle none1 x (a2.idle none2 x (a3.idle none3 x on)) in
      let no = off x in absurd (cc);
  busy = λ h. elim (some_true b1 b2 b3 h) [
    | inl y ↦ (cpu, a3.kept cpu (a2.kept cpu (a1.busy y)))
    | inr (inl y) ↦ (wall, a3.kept wall (a2.busy y))
    | inr (inr y) ↦ (alloc, a3.busy y)
  ];
}

abbrev AllocTried : (wanted : Bool) → Profiler → Bool × Profiler → Type 0
AllocTried wanted p r =
    (s : Flags) × (a : Engine) × (r.1 ≡ record p { started = s; alloc_engine = a })
    × Activated wanted a r.0 p.started s

activate_alloc-Tried :
    (w : World) (wanted : Bool) (p : Profiler) → AllocTried wanted p (activate_alloc w wanted p)
unfolding activate_alloc
activate_alloc-Tried w true p =
    let a = select_alloc_engine w in
    let (s, e, t) = activate-Tried w true a (record p { alloc_engine = a }) in (s, a, e, t)
activate_alloc-Tried w false p =
    let (s, e, t) = not-Tried false p.alloc_engine p in (s, p.alloc_engine, e, t)

-- The three tries one after another.
tries :
    (w : World) (p : Profiler)
    → activate_all w p ≡ (
        let r1 = activate w p.event_mask.cpu p.cpu_engine p in
        let r2 = activate w r1.1.event_mask.wall r1.1.wall_engine r1.1 in
        let r3 = activate_alloc w r2.1.event_mask.alloc r2.1 in (r1.0 || r2.0 || r3.0, r3.1))
unfolding activate_all
tries w p = refl

pub activate_all-AllTried :
    (w : World) (p : Profiler)
    → ((x : Engine) → p.started x ≡ false)
    → (s : Flags) × (a : Engine) × ((activate_all w p).1
        ≡ record p { started = s; alloc_engine = a })
      × AllTried p.event_mask p.cpu_engine p.wall_engine a (activate_all w p).0 s
activate_all-AllTried w p off =
    let (s1, e1, t1) = activate-Tried w p.event_mask.cpu p.cpu_engine p in
    let p1 = with_flags p s1 in
    let (s2, e2, t2) = activate-Tried w p.event_mask.wall p.wall_engine p1 in
    let p2 = with_flags p s2 in
    let (s3, a, e3, t3) = activate_alloc-Tried w p.event_mask.alloc p2 in
    rw (tries w p, e1, e2) (s3, a, e3, three_tried off t1 t2 t3)

-- Which flags are left when `e` may have been stopped.
abbrev Stopped : (wanted : Bool) (e : Engine) (old s : Flags) → Type 0
Stopped wanted e old s =
    (x : Engine) → s x ≡ true → (old x ≡ true) × ((wanted ≡ true) × (same x e ≡ true) → ⊥)

stop_engine-Stopped :
    (wanted : Bool) (e : Engine) (p : Profiler)
    → (s : Flags) × (stop_engine wanted e p ≡ with_flags p s) × Stopped wanted e p.started s
unfolding stop_engine
stop_engine-Stopped true e p = (
  set_flag e false p.started,
  refl,
  λ x on. elim (set_flag-elim e false p.started x on) [
    | inl (_, never) ↦ absurd (cc)
    | inr (off, old) ↦ (old, λ (_, at). absurd (cc))
  ],
)
stop_engine-Stopped false e p = (p.started, refl, λ x on. (on, λ (never, _). absurd (cc)))

stops :
    (p : Profiler)
    → stop_engines p ≡ (
        let p1 = stop_engine p.event_mask.alloc p.alloc_engine p in
        let p2 = stop_engine p1.event_mask.wall p1.wall_engine p1 in
        stop_engine p2.event_mask.cpu p2.cpu_engine p2)
unfolding stop_engines
stops p = refl

pub not_on : {b : Bool} → (b ≡ true → ⊥) → b ≡ false
not_on {b} off = elim (Bool-cases b) [ inl on ↦ absurd (off on) | inr off' ↦ off' ]

-- The stops leave no engine running.
pub stop_engines-stopped :
    (p : Profiler)
    → IsCovered p.event_mask p.cpu_engine p.wall_engine p.alloc_engine p.started
    → (s : Flags) × (stop_engines p ≡ record p { started = s }) × ((x : Engine) → s x ≡ false)
stop_engines-stopped p c =
    let (s1, e1, t1) = stop_engine-Stopped p.event_mask.alloc p.alloc_engine p in
    let p1 = with_flags p s1 in
    let (s2, e2, t2) = stop_engine-Stopped p.event_mask.wall p.wall_engine p1 in
    let p2 = with_flags p s2 in
    let (s3, e3, t3) = stop_engine-Stopped p.event_mask.cpu p.cpu_engine p2 in
    (
      s3,
      rw (stops p, e1, e2) e3,
      λ x. not_on (λ on.
          let (on2, cpu) = t3 x on in
          let (on1, wall) = t2 x on2 in
          let (on0, alloc) = t1 x on1 in
          elim (c x on0) [ inl y ↦ cpu y | inr (inl y) ↦ wall y | inr (inr y) ↦ alloc y ]),
    )
