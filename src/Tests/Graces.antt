-- ===== src/Tests/Graces.antt =====
-- pkg/framework/grace.go on lines that servers print.
use nfs_verification.Clock.{seconds, sub_time}
use nfs_verification.Grace.Signals.{
  StandsIn, Accounted, KeepsMembers, classify_grace_lines-Accounted,
}
use nfs_verification.Grace.Windows.{IsWindow, window-IsWindow}
use nfs_verification.Grace.Wording.{FirstDecides, classify_grace-FirstDecides}
use nfs_verification.Grace.Observations.{GraceSignal, GraceObservation, LogLine, window}
use nfs_verification.Grace.Phrases.{mentions_grace, grace_phrases, classify_grace}
use nfs_verification.Grace.Streams.{
  observe_lines, observe_line, add_signal, announces, classify_grace_lines,
}
use nfs_verification.Prelude.{
  ◌≡◌, inl, inr, refl, true, List, [], ◌∷◌, none, some, All, arith, length, ◌-ℤ◌,
}
use nfs_verification.Text.{
  Text, codes, to_lower, eq_text, has_suffix, trim_space, trim_left, trim_right,
}

abbrev exit_line : Text
exit_line = codes "nfs_try_lift_grace :STATE :EVENT :NFS Server Now NOT IN GRACE"

exit_run : classify_grace (none, none) exit_line ≡ some true
unfolding classify_grace
exit_run = refl

-- Two exit words, both away from "grace" or in an identifier.
check_run :
    classify_grace
      (none, none)
      (codes "nfs_try_lift_grace :STATE :EVENT :check grace:reclaim complete(0)")
    ≡ none
unfolding classify_grace
check_run = refl

classify_grace-FirstDecides_example :
    FirstDecides (grace_phrases (to_lower exit_line)) (classify_grace (none, none) exit_line)
unfolding mentions_grace
classify_grace-FirstDecides_example = classify_grace-FirstDecides exit_line refl

abbrev lines : List LogLine
lines =
    record { at = seconds 1; text = codes "NFS Server Now IN GRACE"; source = codes "srv/nfs" }
    ∷ record {
      at = seconds 2;
      text = codes "NFS Server Now IN GRACE";
      source = codes "/var/log/ganesha.log";
    }
    ∷ record {
      at = seconds 40;
      text = codes "NFS Server Now NOT IN GRACE";
      source = codes "srv/nfs";
    }
    ∷ []

-- The first two transitions exchanged, as a sort may do that keeps no order.
abbrev swap_two : List GraceSignal → List GraceSignal
swap_two [] = []
swap_two (a ∷ []) = a ∷ []
swap_two (a ∷ (b ∷ ss)) = b ∷ a ∷ ss

swap_two-KeepsMembers : KeepsMembers swap_two
swap_two-KeepsMembers [] p = ((λ s h. h), refl)
swap_two-KeepsMembers (a ∷ []) p = ((λ s h. h), refl)
swap_two-KeepsMembers (a ∷ (b ∷ ss)) p = (kept, ground arith)
  where
    kept : (s : GraceSignal) → StandsIn s (a ∷ b ∷ ss) → StandsIn s (b ∷ a ∷ ss)
    kept s (inl e) = inr (inl e)
    kept s (inr (inl e)) = inl e
    kept s (inr (inr h)) = inr (inr h)

classify_grace_lines-Accounted_example :
    All (Accounted (none, none) (classify_grace_lines swap_two (none, none) lines)) lines
classify_grace_lines-Accounted_example =
    classify_grace_lines-Accounted swap_two (none, none) lines swap_two-KeepsMembers

abbrev start : GraceObservation
start = record { signals = []; unclassified = [] }

-- The second copy of the first announcement is dropped.
observed_run : length (observe_lines (none, none) lines start).signals ≡ 2
unfolding observe_lines observe_line classify_grace add_signal announces sub_time ◌-ℤ◌ eq_text
    has_suffix trim_space trim_left trim_right
observed_run = refl

window-IsWindow_example :
    IsWindow
      (observe_lines (none, none) lines start).signals
      (window (observe_lines (none, none) lines start))
window-IsWindow_example = window-IsWindow (observe_lines (none, none) lines start)
