-- ===== src/Time/Deferred/Tests.antt =====
-- packages/time-correction/src/deferred.rs: certificates that are their windows, and the theorem at
-- a chain of two.
use nixos_test.Prelude.{◌≡◌, refl, Bool, false, some, List, [], ◌∷◌, arith, All}
use nixos_test.Prelude.Int.{ℤ, pos}
use nixos_test.Prelude.Outcome.{ok, err}
use nixos_test.Time.Deferred
use nixos_test.Time.Deferred.Accepted.{IsVerified, HoldsIfKnown, accept_sound}

abbrev leaf_is_valid : List Deferred.Window → ℤ → Bool
leaf_is_valid [] t = false
leaf_is_valid (w ∷ chain) t = Deferred.contains t w

abbrev windows : Deferred.Pki
windows = record {
  Certificate = Deferred.Window;
  ServerName = Unit {0};
  verify_at = λ chain name t. leaf_is_valid chain t;
  window_of = λ w. some w;
}

-- A leaf, and a superseded intermediate whose validity is over.
abbrev legs : List (Deferred.Pending windows)
legs =
    (record {
      leg = b'n' ∷ [];
      chain = (pos 100, pos 200) ∷ (pos 10, pos 50) ∷ [];
      server_name = tt;
    })
    ∷ []

accepted :
    Deferred.accept windows legs (pos 150)
    ≡ ok (record { seconds = pos 150; window = some (pos 100, pos 200) })
unfolding Deferred.accept Deferred.check_chains Deferred.leg_window Deferred.chain_windows
    Deferred.verified_window Deferred.intersect Deferred.intersect_from Deferred.with_window
    Deferred.is_empty Deferred.any_unknown Deferred.known
accepted = refl

expired : Deferred.accept windows legs (pos 201) ≡ err (Deferred.chain_rejected (b'n' ∷ []))
unfolding Deferred.accept Deferred.check_chains Deferred.is_empty
expired = refl

accept_sound_example :
    (pos 150 ≡ pos 150)
    × ((Deferred.is_empty legs ≡ false)
        × (All (IsVerified windows (pos 150)) legs
            × HoldsIfKnown (pos 150) (some (pos 100, pos 200))))
accept_sound_example = accept_sound windows legs (pos 150) (omega arith) accepted
