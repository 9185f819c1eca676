-- ===== src/Audio/Caps/Runs.antt =====
-- Links between nodes, and the theorem on them at concrete inputs.
use libcornrow.Base.{◌≡◌, refl, ◌↔◌, true, false, [], ◌∷◌}
use libcornrow.Core.Flags.{test_flag}
use libcornrow.Audio.Caps.{Cap, can_intersect}
use libcornrow.Audio.Caps.Laws.{Linked, can_intersect-Linked}

-- AC-3 in RTP packets; what takes AC-3 in packets or not; what takes it without packets only
abbrev packets : Cap
packets = Cap.audio_cap (record { codecs = 0x8020; rates = 0xff; channels = 0xff; flags = 0 })

abbrev both : Cap
both = Cap.audio_cap (record { codecs = 0x8020; rates = 0x4; channels = 0x2; flags = 0 })

abbrev plain : Cap
plain = Cap.audio_cap (record { codecs = 0x20; rates = 0x4; channels = 0x2; flags = 0 })

links :
    can_intersect ((Cap.no_cap, packets) ∷ []) ((plain, Cap.no_cap) ∷ (both, Cap.no_cap) ∷ [])
    ≡ true
unfolding can_intersect test_flag
links = refl

-- The packets are refused, and not the other way round.
refuses : can_intersect ((Cap.no_cap, packets) ∷ []) ((plain, Cap.no_cap) ∷ []) ≡ false
unfolding can_intersect test_flag
refuses = refl

accepts : can_intersect ((Cap.no_cap, plain) ∷ []) ((packets, Cap.no_cap) ∷ []) ≡ true
unfolding can_intersect test_flag
accepts = refl

can_intersect-Linked_run :
    (can_intersect ((Cap.no_cap, packets) ∷ []) ((both, Cap.no_cap) ∷ []) ≡ true)
    ↔ Linked ((Cap.no_cap, packets) ∷ []) ((both, Cap.no_cap) ∷ [])
can_intersect-Linked_run =
    can_intersect-Linked ((Cap.no_cap, packets) ∷ []) ((both, Cap.no_cap) ∷ [])
