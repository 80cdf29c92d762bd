-- ===== src/Journal/Loading.antt =====
-- Loading the file that was written: the lemmas on `load_records`.
use pdd_bridge_agent.Prelude.{
  ℕ, Bool, true, false, none, List, [], ◌∷◌, ◌++◌, String, str_eq, ◌≡◌, refl, ap, arith, eq_iff,
  str_eq-sym, Bool-cases, inl, inr, ◌∙◌, sym, false≢true, ◌||◌,
}
use pdd_bridge_agent.Text.{strip, is_blank}
use pdd_bridge_agent.Dict
use pdd_bridge_agent.Dict.{Dict}
use pdd_bridge_agent.Dict.Laws
use mathlib.Core.List.{append-nil, append_assoc}
use pdd_bridge_agent.Journal.{
  Entry, Raw, entry, not_dict, image, recover, load_one, load_records, was_executing,
}

-- The keys are distinct, and none is blank.
abbrev pub KeysOk : Dict Entry → Type 0
KeysOk [] = Unit
KeysOk ((k, e) ∷ d) = (is_blank (strip k) ≡ false) × (Dict.get d k ≡ none) × KeysOk d

-- No key of the second is in the first.
abbrev Apart : Dict Entry → Dict Entry → Type 0
Apart acc [] = Unit
Apart acc ((k, e) ∷ d) = (Dict.get acc k ≡ none) × Apart acc d

unfoldable pub recover_all : ℕ → Dict Entry → Dict Entry
recover_all now [] = []
recover_all now ((k, e) ∷ d) = (k, recover now e) ∷ recover_all now d

put_new :
    (d : Dict Entry) (k : String) (e : Entry)
    → Dict.get d k ≡ none
    → Dict.put d k e ≡ d ++ (k, e) ∷ []
unfolding Dict.get Dict.put
put_new [] k e h = refl
put_new ((j, w) ∷ d) k e h = ground (arith, put_new d k e)

get-snoc :
    (acc : Dict Entry) (k j : String) (e : Entry)
    → Dict.get acc j ≡ none
    → ¬ (k ≡ j)
    → Dict.get (acc ++ (k, e) ∷ []) j ≡ none
unfolding Dict.get
get-snoc [] k j e h n = ground (arith, eq_iff k j)
get-snoc ((i, w) ∷ acc) k j e h n = ground (arith, get-snoc acc k j e)

ne_of_none :
    (d : Dict Entry) (k j : String) (e : Entry) → Dict.get ((j, e) ∷ d) k ≡ none → ¬ (k ≡ j)
unfolding Dict.get
ne_of_none d k j e h = ground (arith, eq_iff j k)

tail_none :
    (d : Dict Entry) (k j : String) (e : Entry)
    → Dict.get ((j, e) ∷ d) k ≡ none
    → Dict.get d k ≡ none
unfolding Dict.get
tail_none d k j e h = ground arith

Apart-snoc :
    (acc d : Dict Entry) (k : String) (e : Entry)
    → Apart acc d
    → Dict.get d k ≡ none
    → Apart (acc ++ (k, e) ∷ []) d
Apart-snoc acc [] k e a h = tt
Apart-snoc acc ((j, w) ∷ d) k e a h =
    (get-snoc acc k j e a.0 (ne_of_none d k j w h), Apart-snoc acc d k e a.1 (tail_none d k j w h))

load_one_named :
    (now : ℕ) (k : String) (e : Entry) (s : Dict Entry × Bool)
    → is_blank (strip k) ≡ false
    → load_one now (k, entry e) s ≡ (Dict.put s.0 k (recover now e), was_executing e.state || s.1)
unfolding load_one
load_one_named now k e s h = rw h

-- Loading what was written recovers each record in its place.
load-image :
    (now : ℕ) (d : Dict Entry) (s : Dict Entry × Bool)
    → KeysOk d
    → Apart s.0 d
    → (load_records now (image d) s).0 ≡ s.0 ++ recover_all now d
unfolding load_records image recover_all
load-image now [] s ok apart = rw append-nil
load-image now ((k, e) ∷ d) s ok apart =
    let s' : Dict Entry × Bool = (s.0 ++ (k, recover now e) ∷ [], was_executing e.state || s.1) in
    let turn : load_one now (k, entry e) s ≡ s' =
      rw (load_one_named now k e s ok.0, put_new s.0 k (recover now e) apart.0) in
    ap (λ (x : Dict Entry × Bool). (load_records now (image d) x).0) turn
    ∙ load-image now d s' ok.2 (Apart-snoc s.0 d k (recover now e) apart.1 ok.1)
    ∙ append_assoc s.0 ((k, recover now e) ∷ []) (recover_all now d)

Apart-empty : (d : Dict Entry) → Apart [] d
unfolding Dict.get
Apart-empty [] = tt
Apart-empty ((k, e) ∷ d) = (refl, Apart-empty d)

pub load-image_all :
    (now : ℕ) (d : Dict Entry)
    → KeysOk d
    → (load_records now (image d) ([], false)).0 ≡ recover_all now d
load-image_all now d ok = load-image now d ([], false) ok (Apart-empty d)

-- No record is executing.
abbrev pub IsSettled : Dict Entry → Type 0
IsSettled [] = Unit
IsSettled ((k, e) ∷ d) = (was_executing e.state ≡ false) × IsSettled d

recover_settles : (now : ℕ) (e : Entry) → was_executing (recover now e).state ≡ false
unfolding recover
recover_settles now e = ground arith

pub recover_settled : (now : ℕ) (e : Entry) → was_executing e.state ≡ false → recover now e ≡ e
unfolding recover
recover_settled now e h = ground arith

pub recover_all_settled : (now : ℕ) (d : Dict Entry) → IsSettled d → recover_all now d ≡ d
unfolding recover_all
recover_all_settled now [] h = refl
recover_all_settled now ((k, e) ∷ d) h =
    rw (recover_settled now e h.0, recover_all_settled now d h.1)

IsSettled-recover_all : (now : ℕ) (d : Dict Entry) → IsSettled (recover_all now d)
unfolding recover_all
IsSettled-recover_all now [] = tt
IsSettled-recover_all now ((k, e) ∷ d) = (recover_settles now e, IsSettled-recover_all now d)

put-IsSettled :
    (d : Dict Entry) (k : String) (e : Entry)
    → IsSettled d
    → was_executing e.state ≡ false
    → IsSettled (Dict.put d k e)
unfolding Dict.put
put-IsSettled [] k e h s = (s, tt)
put-IsSettled ((j, w) ∷ d) k e h s = elim (Bool-cases (str_eq j k)) [
  | inl here ↦ rw here (s, h.1)
  | inr there ↦ rw there (h.0, put-IsSettled d k e h.1 s)
]

get-put_absent :
    (d : Dict Entry) (k j : String) (e : Entry)
    → Dict.get d j ≡ none
    → str_eq j k ≡ false
    → Dict.get (Dict.put d k e) j ≡ none
get-put_absent d k j e h n = ground (arith, Laws.get-put d k j e, str_eq-sym j k)

pub put-KeysOk :
    (d : Dict Entry) (k : String) (e : Entry)
    → KeysOk d
    → is_blank (strip k) ≡ false
    → KeysOk (Dict.put d k e)
unfolding Dict.put Dict.get
put-KeysOk [] k e h b = (b, refl, tt)
put-KeysOk ((j, w) ∷ d) k e h b = elim (Bool-cases (str_eq j k)) [
  | inl here ↦ rw here (b, rw (← (eq_iff j k).0 here) h.1, h.2)
  | inr there ↦ rw there (h.0, get-put_absent d k j e h.1 there, put-KeysOk d k e h.2 b)
]

pub remove-KeysOk : (d : Dict Entry) (k : String) → KeysOk d → KeysOk (Dict.remove d k)
unfolding Dict.remove
remove-KeysOk [] k h = tt
remove-KeysOk ((j, w) ∷ d) k h = elim (Bool-cases (str_eq j k)) [
  | inl here ↦ rw here (remove-KeysOk d k h.2)
  | inr there ↦ rw there (h.0, ground (arith, Laws.get-remove d k j, h.1), remove-KeysOk d k h.2)
]

load_one-KeysOk :
    (now : ℕ) (k : String) (r : Raw) (s : Dict Entry × Bool)
    → KeysOk s.0
    → KeysOk (load_one now (k, r) s).0
unfolding load_one
load_one-KeysOk now k not_dict s h = h
load_one-KeysOk now k (entry e) s h = elim (Bool-cases (is_blank (strip k))) [
  | inl blank ↦ rw (blank, KeysOk) h
  | inr named ↦ rw (named, KeysOk) (put-KeysOk s.0 k (recover now e) h named)
]

pub load-KeysOk :
    (now : ℕ) (raws : List (String × Raw)) (s : Dict Entry × Bool)
    → KeysOk s.0
    → KeysOk (load_records now raws s).0
unfolding load_records
load-KeysOk now [] s h = h
load-KeysOk now ((k, r) ∷ rest) s h =
    load-KeysOk now rest (load_one now (k, r) s) (load_one-KeysOk now k r s h)

load_one-IsSettled :
    (now : ℕ) (k : String) (r : Raw) (s : Dict Entry × Bool)
    → IsSettled s.0
    → IsSettled (load_one now (k, r) s).0
unfolding load_one
load_one-IsSettled now k not_dict s h = h
load_one-IsSettled now k (entry e) s h = elim (Bool-cases (is_blank (strip k))) [
  | inl blank ↦ rw (blank, IsSettled) h
  | inr named ↦
      rw (named, IsSettled) (put-IsSettled s.0 k (recover now e) h (recover_settles now e))
]

pub load-IsSettled :
    (now : ℕ) (raws : List (String × Raw)) (s : Dict Entry × Bool)
    → IsSettled s.0
    → IsSettled (load_records now raws s).0
unfolding load_records
load-IsSettled now [] s h = h
load-IsSettled now ((k, r) ∷ rest) s h =
    load-IsSettled now rest (load_one now (k, r) s) (load_one-IsSettled now k r s h)

load_one-changed :
    (now : ℕ) (k : String) (r : Raw) (s : Dict Entry × Bool)
    → s.1 ≡ true
    → (load_one now (k, r) s).1 ≡ true
unfolding load_one
load_one-changed now k not_dict s h = h
load_one-changed now k (entry e) s h = ground arith

-- A change that is noted stays noted.
load-changed :
    (now : ℕ) (raws : List (String × Raw)) (s : Dict Entry × Bool)
    → s.1 ≡ true
    → (load_records now raws s).1 ≡ true
unfolding load_records
load-changed now [] s h = h
load-changed now ((k, r) ∷ rest) s h =
    load-changed now rest (load_one now (k, r) s) (load_one-changed now k r s h)

-- A turn that changed nothing gives the same records at any other time.
load_one_unchanged :
    (now later : ℕ) (k : String) (r : Raw) (s t : Dict Entry × Bool)
    → s.0 ≡ t.0
    → (load_one now (k, r) s).1 ≡ false
    → (load_one later (k, r) t).0 ≡ (load_one now (k, r) s).0
unfolding load_one
load_one_unchanged now later k not_dict s t e h = sym e
load_one_unchanged now later k (entry x) s t e h =
    ground (arith, recover_settled now x, recover_settled later x)

-- A load that changed nothing gives the same records at any other time.
pub load_unchanged :
    (now later : ℕ) (raws : List (String × Raw)) (s t : Dict Entry × Bool)
    → s.0 ≡ t.0
    → (load_records now raws s).1 ≡ false
    → (load_records later raws t).0 ≡ (load_records now raws s).0
unfolding load_records
load_unchanged now later [] s t e h = sym e
load_unchanged now later ((k, r) ∷ rest) s t e h =
    load_unchanged now later rest (load_one now (k, r) s) (load_one later (k, r) t)
      (sym (load_one_unchanged now later k r s t e still)) h
  where
    still : (load_one now (k, r) s).1 ≡ false
    still = elim (Bool-cases (load_one now (k, r) s).1) [
      | inl c ↦ absurd (false≢true (sym h ∙ load-changed now rest (load_one now (k, r) s) c))
      | inr n ↦ n
    ]
