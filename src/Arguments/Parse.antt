-- ===== src/Arguments/Parse.antt =====
-- `parse`. `clamped` is the ratio of a text: `strtod`, cut to the range from 0.01 to 1.0.
use java_profiler.Base.{
  Bool, true, false, ◌&&◌, if◌then◌else◌, List, [], ◌∷◌, Option, none, some, bytes, cut,
}
use java_profiler.Arguments.Cases.{split, dispatch}
use java_profiler.Arguments.Labels.{labels, find_label}
use java_profiler.Arguments.{
  Text, Arguments, Message, no_memory, CStack, cstack_fp, cstack_dwarf, is_negative, hash,
}

unfoldable pub drop_empty : List Text → List Text
drop_empty [] = []
drop_empty ([] ∷ parts) = drop_empty parts
drop_empty ((c ∷ part) ∷ parts) = (c ∷ part) ∷ drop_empty parts

-- The texts that `strtok` finds between commas.
unfoldable pub tokens : Text → List Text
unfolding drop_empty split
tokens args = drop_empty (split 44 args)

-- `msg = …`
abbrev pub later : Option Message → Option Message → Option Message
later none msg = msg
later (some new) msg = some new

unfoldable pub is_none : {A : Type 0} → Option A → Bool
is_none none = true
is_none (some x) = false

unfoldable pub without_fp : CStack → CStack
without_fp cstack_fp = cstack_dwarf
without_fp other = other

module _ {D : Type 0} (clamped : Text → D) where
  -- A round of the loop, at an argument that may have a value.
  unfoldable pub parse_arg : Text → Arguments D → Arguments D × Option Message
  unfolding cut find_label dispatch
  parse_arg arg a =
      let (name, value) = cut 61 arg in
      dispatch clamped (find_label labels (hash name)) name value a

  unfoldable pub parse_args :
      List Text → Arguments D → Option Message → Arguments D × Option Message
  unfolding parse_arg
  parse_args [] a msg = (a, msg)
  parse_args (arg ∷ args) a msg =
      let (a', new) = parse_arg arg a in parse_args args a' (later new msg)

  -- What follows the loop.
  unfoldable pub default_event : Arguments D → Arguments D
  unfolding is_none is_negative
  default_event a =
      if is_none a.event && is_negative a.cpu && is_negative a.wall && is_negative a.memory
      then record a { event = some (bytes "cpu") }
      else a

  unfoldable pub finish :
      (is_open_j9 : Bool) → Arguments D → Option Message → Arguments D × Option Message
  unfolding default_event without_fp
  finish is_open_j9 a (some msg) = (a, some msg)
  finish is_open_j9 a none =
      let b = default_event a in
      ((if is_open_j9 then record b { cstack = without_fp b.cstack } else b), none)

  -- `has_memory` is the answer of `malloc`; `none` is the result `Error::OK`.
  unfoldable pub parse :
      (is_open_j9 has_memory : Bool) → Option Text → Arguments D → Arguments D × Option Message
  unfolding tokens parse_args finish
  parse is_open_j9 has_memory none a = (a, none)
  parse is_open_j9 false (some args) a = (record a { buf = false }, some no_memory)
  parse is_open_j9 true (some args) a =
      let (a', msg) = parse_args (tokens args) (record a { buf = true }) none in
      finish is_open_j9 a' msg
