-- ===== src/Arguments/Names.antt =====
-- Which arguments the labels of `parse` recognise.
use java_profiler.Base.{
  List, [], ◌∷◌, All, length, some, bytes, str_equal, str_equal_iff, leb, ◌&&◌, ◌==◌, ◌≡◌, ◌↔◌,
  refl, ap, ◌∙◌, arith, Bool, true, Bool-cases, inl, inr,
}
use java_profiler.Arguments.Labels.{
  Keyword, opt_start, opt_resume, opt_stop, opt_check, opt_status, opt_list, opt_version, opt_jfr,
  opt_cpu, opt_wall, opt_walltpt, opt_event, opt_memory, opt_generations, opt_interval,
  opt_jstackdepth, opt_safemode, opt_file, opt_log, opt_loglevel, opt_filter, opt_allkernel,
  opt_alluser, opt_cstack, opt_attributes, opt_lightweight, opt_wallsampler, labels, find_label,
}
use java_profiler.Arguments.Hash.{IsLetter, IsName, hash_injective}
use java_profiler.Arguments.{Text, hash}

-- How an option is written.
unfoldable pub text_of : Keyword → Text
text_of opt_start = bytes "start"
text_of opt_resume = bytes "resume"
text_of opt_stop = bytes "stop"
text_of opt_check = bytes "check"
text_of opt_status = bytes "status"
text_of opt_list = bytes "list"
text_of opt_version = bytes "version"
text_of opt_jfr = bytes "jfr"
text_of opt_cpu = bytes "cpu"
text_of opt_wall = bytes "wall"
text_of opt_walltpt = bytes "walltpt"
text_of opt_event = bytes "event"
text_of opt_memory = bytes "memory"
text_of opt_generations = bytes "generations"
text_of opt_interval = bytes "interval"
text_of opt_jstackdepth = bytes "jstackdepth"
text_of opt_safemode = bytes "safemode"
text_of opt_file = bytes "file"
text_of opt_log = bytes "log"
text_of opt_loglevel = bytes "loglevel"
text_of opt_filter = bytes "filter"
text_of opt_allkernel = bytes "allkernel"
text_of opt_alluser = bytes "alluser"
text_of opt_cstack = bytes "cstack"
text_of opt_attributes = bytes "attributes"
text_of opt_lightweight = bytes "lightweight"
text_of opt_wallsampler = bytes "wallsampler"

-- A label that stands for its option.
abbrev IsLabel : Text × Keyword → Type 0
IsLabel (name, k) = (name ≡ text_of k) × IsName name

find_label_sound :
    (rest : List (Text × Keyword)) (arg : Text) (k : Keyword)
    → All IsLabel rest
    → IsName arg
    → find_label rest (hash arg) ≡ some k
    → arg ≡ text_of k
unfolding find_label
find_label_sound [] arg k fine name e = absurd (cc)
find_label_sound ((label, l) ∷ rest) arg k ((written, is_name), fine) name e =
    elim (Bool-cases (hash arg == hash label)) [
      | inl q ↦
          let same : hash arg ≡ hash label = ground arith in
          let found : some l ≡ some k = rw q at e in
          let at : l ≡ k = cc in
          hash_injective arg label name is_name same ∙ written ∙ ap text_of at
      | inr q ↦ find_label_sound rest arg k fine name (rw q at e)
    ]

unfoldable are_letters : Text → Bool
are_letters [] = true
are_letters (c ∷ s) = leb 97 c && leb c 122 && are_letters s

letters_of : (s : Text) → are_letters s ≡ true → All IsLetter s
unfolding are_letters
letters_of [] e = tt
letters_of (c ∷ s) e = ((ground arith, ground arith), letters_of s (ground arith))

unfoldable is_label : Text → Text → Bool
unfolding are_letters
is_label name written = str_equal name written && are_letters name && leb (length name) 12

unfoldable are_labels : List (Text × Keyword) → Bool
unfolding is_label text_of
are_labels [] = true
are_labels ((name, k) ∷ rest) = is_label name (text_of k) && are_labels rest

is_label-IsLabel :
    (name : Text) (k : Keyword) → is_label name (text_of k) ≡ true → IsLabel (name, k)
unfolding is_label
is_label-IsLabel name k e = (
  (str_equal_iff name (text_of k)).0 (ground arith),
  record { letters = letters_of name (ground arith); short = ground arith },
)

labels_of : (rest : List (Text × Keyword)) → are_labels rest ≡ true → All IsLabel rest
unfolding are_labels
labels_of [] e = tt
labels_of ((name, k) ∷ rest) e =
    (is_label-IsLabel name k (ground arith), labels_of rest (ground arith))

labels-IsLabel : All IsLabel labels
unfolding are_labels str_equal
labels-IsLabel = labels_of labels refl

text_of-found : (k : Keyword) → find_label labels (hash (text_of k)) ≡ some k
unfolding find_label text_of hash
text_of-found opt_start = refl
text_of-found opt_resume = refl
text_of-found opt_stop = refl
text_of-found opt_check = refl
text_of-found opt_status = refl
text_of-found opt_list = refl
text_of-found opt_version = refl
text_of-found opt_jfr = refl
text_of-found opt_cpu = refl
text_of-found opt_wall = refl
text_of-found opt_walltpt = refl
text_of-found opt_event = refl
text_of-found opt_memory = refl
text_of-found opt_generations = refl
text_of-found opt_interval = refl
text_of-found opt_jstackdepth = refl
text_of-found opt_safemode = refl
text_of-found opt_file = refl
text_of-found opt_log = refl
text_of-found opt_loglevel = refl
text_of-found opt_filter = refl
text_of-found opt_allkernel = refl
text_of-found opt_alluser = refl
text_of-found opt_cstack = refl
text_of-found opt_attributes = refl
text_of-found opt_lightweight = refl
text_of-found opt_wallsampler = refl

-- An argument of at most 12 small letters is recognised as an option just where it is that option's name.
pub find_label_iff :
    (arg : Text) (k : Keyword)
    → IsName arg
    → (find_label labels (hash arg) ≡ some k) ↔ (arg ≡ text_of k)
find_label_iff arg k name =
    (find_label_sound labels arg k labels-IsLabel name, λ e. rw e (text_of-found k))
