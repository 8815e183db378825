-- ===== src/Buffer/Tests.antt =====
-- Runs of the ring, and the theorems at inputs that meet their hypotheses.
use mizuflow.Base.{zero, suc, ◌≡◌, refl, true, false, List, [], ◌∷◌, arith}
use mizuflow.Base.Int.{ℤ, pos}
use mizuflow.Api.{Message, zero_message}
use mizuflow.Buffer.{RevisionBuffer, new_revision_buffer, add_message, get_since, collect}
use mizuflow.Buffer.Search.{search}
use mizuflow.Buffer.Window.{IsValid}
use mizuflow.Buffer.Since.{IsOrdered}
use mizuflow.Buffer.History.{add_all}

abbrev at_revision : ℤ → Message
at_revision r = record zero_message { revision = r }

abbrev three : List Message
three = at_revision (pos 10) ∷ at_revision (pos 11) ∷ at_revision (pos 14) ∷ []

-- Two slots: 11 and 14 are left, 14 over the slot of 10.
abbrev wrapped : RevisionBuffer
wrapped = record {
  messages = at_revision (pos 14) ∷ at_revision (pos 11) ∷ [];
  size = 2;
  head = 1;
  is_full = true;
}

three_wraps : add_all (new_revision_buffer (pos 2)) three ≡ wrapped
unfolding new_revision_buffer add_message
three_wraps = refl

since_ok : get_since wrapped (pos 11) ≡ (at_revision (pos 14) ∷ [], true)
unfolding get_since collect search
since_ok = refl

since_too_old : get_since wrapped (pos 10) ≡ ([], false)
unfolding get_since
since_too_old = refl

three-IsOrdered : IsOrdered three
three-IsOrdered zero zero le lt = omega arith
three-IsOrdered zero (suc zero) le lt = omega arith
three-IsOrdered zero (suc (suc zero)) le lt = omega arith
three-IsOrdered (suc zero) (suc zero) le lt = omega arith
three-IsOrdered (suc zero) (suc (suc zero)) le lt = omega arith
three-IsOrdered (suc (suc zero)) (suc (suc zero)) le lt = omega arith
three-IsOrdered _ _ le lt = absurd (omega arith)

wrapped-IsValid : IsValid wrapped
wrapped-IsValid = omega arith
