-- ===== src/Kb/Tests.antt =====
-- The keyboard at a small state, and its theorems there.
use sbrocks.Prelude.{
  ℕ, ◌+◌, ◌<◌, ◌≤◌, ◌≡◌, ◌≢◌, refl, arith, ◌==◌, if◌then◌else◌, some, ◌∷◌, [], get_or, inl,
}
use sbrocks.Kstring.Copy.{Outside}
use sbrocks.Kb.{Kb, Control, kb_handler, code_at, kbdus, buffer_size, task_runnable}
use sbrocks.Kb.Safe.{InBounds, kb_handler-InBounds}
use sbrocks.Kb.Line.{type_keys, IsPlain, AllPlain, Waits, line_of, type_keys-line, kb_handler-full}

-- Task 5 waits for a line at 8192; the buffer is at 4096.
abbrev pub small_kb : ℕ → Kb
small_kb count = record {
  current_control = Control.normal_key;
  flag = 1;
  i = 0;
  str = 8192;
  count = count;
  a = 4096;
  current_char = 0;
  waiting_task = 5;
  waiting_state = 9;
  memory = λ b. 0;
  echoed = [];
}

small_Waits : (count : ℕ) → count ≤ buffer_size → Waits (small_kb count)
small_Waits count h = record {
  normal = refl;
  reading = refl;
  waiting = λ e. absurd (no e);
  fits = h;
}
  where
    no : ◌≡◌ {A = ℕ} 5 0 → ⊥
    no e = omega arith

-- The scan codes of `l` and `s`.
l_IsPlain : IsPlain 38
unfolding code_at kbdus
l_IsPlain = record {
  pressed = refl;
  no_shift = refl;
  no_alt = refl;
  no_control = refl;
  no_enter = refl;
  no_backspace = refl;
}

s_IsPlain : IsPlain 31
unfolding code_at kbdus
s_IsPlain = record {
  pressed = refl;
  no_shift = refl;
  no_alt = refl;
  no_control = refl;
  no_enter = refl;
  no_backspace = refl;
}

pub ls_AllPlain : AllPlain (38 ∷ 31 ∷ [])
unfolding AllPlain
ls_AllPlain = (l_IsPlain, (s_IsPlain, tt))

kb_handler-InBounds_example : (kb' : Kb) × (kb_handler 38 (small_kb 100) ≡ some kb') × InBounds kb'
kb_handler-InBounds_example = kb_handler-InBounds 38 (small_kb 100) (record {
  index = omega arith;
  fits = omega arith;
  waits = λ f. (small_Waits 100 (omega arith)).waiting;
})

type_keys-line_example :
    (kb1 kb' : Kb) × (type_keys (38 ∷ 31 ∷ []) (small_kb 100) ≡ some kb1)
    × (kb_handler 28 kb1 ≡ some kb')
    × ((j : ℕ) → j < 3 → kb'.memory (8192 + j) ≡ get_or (line_of (38 ∷ 31 ∷ [])) j 0)
    × (kb'.waiting_state ≡ task_runnable)
    × (kb'.flag ≡ 0)
    × (kb'.i ≡ 0)
    × (kb'.waiting_task ≡ 5)
type_keys-line_example =
    type_keys-line (38 ∷ 31 ∷ []) (small_kb 100) ls_AllPlain (small_Waits 100 (omega arith)) refl
      (omega arith) (inl (omega arith))

kb_handler-full_example :
    (kb' : Kb) × (kb_handler 38 (small_kb 1) ≡ some kb')
    × (kb'.flag ≡ 0)
    × (kb'.waiting_state ≡ task_runnable)
    × (kb'.memory 8192 ≡ (if 0 == 0 then code_at kbdus 38 else 0))
    × ((b : ℕ) → Outside 4096 buffer_size b → b ≢ 8192 → kb'.memory b ≡ 0)
kb_handler-full_example =
    kb_handler-full 38 (small_kb 1) l_IsPlain (small_Waits 1 (omega arith)) (omega arith)
      (omega arith) (inl (omega arith))
