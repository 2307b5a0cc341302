-- ===== src/Linux/Media/Calls.antt =====
-- The calls of a media manager in sequence, each with the devices that its lister returns.
use mathlib.Core.List.Memᴰ
use pi_mobile_photobackup.Prelude.{Text, none, some, List, [], ◌∷◌, ◌≡◌}
use pi_mobile_photobackup.Effects.{ok}
use pi_mobile_photobackup.Linux.Devices.{BlockDevice}
use pi_mobile_photobackup.Linux.Mounts.{MountService}
use pi_mobile_photobackup.Linux.Media.{
  Media, MediaConfig, SourceRef, source_candidates, awaiting_removal, media_state, eject, select,
  current_source,
}
use pi_mobile_photobackup.Linux.Media.Tracked.{eject-mounted}
use pi_mobile_photobackup.Linux.Media.Mounted.{
  IsReadOnlyService, IsProtected, IsSafeSource, current_source-IsProtected,
  current_source-IsSafeSource,
}

pub data MediaCall : Type 0 where
  lists awaits counts ejects looks_for_source : List BlockDevice → MediaCall
  selects : Text → MediaCall

abbrev pub new_media : {S : Type 0} → S → Media S
new_media s = record { system = s; mounted = []; selected_uuid = none; ejected = [] }

module _ {S : Type 0} (service : MountService S) (config : MediaConfig) where
  abbrev pub serve : MediaCall → Media S → Media S
  serve (lists devices) m = (source_candidates config devices m).1
  serve (awaits devices) m = (awaiting_removal config devices m).1
  serve (counts devices) m = (media_state config devices m).1
  serve (ejects devices) m = (eject service config devices m).1
  serve (looks_for_source devices) m = (current_source service config devices m).1
  serve (selects uuid) m = select uuid m

  abbrev pub serve_all : List MediaCall → Media S → Media S
  serve_all [] m = m
  serve_all (c ∷ cs) m = serve_all cs (serve c m)

  module _ (sound : IsReadOnlyService service) where
    serve-IsProtected : (c : MediaCall) (m : Media S) → IsProtected m → IsProtected (serve c m)
    unfolding source_candidates awaiting_removal media_state select
    serve-IsProtected (lists devices) m safe = safe
    serve-IsProtected (awaits devices) m safe = safe
    serve-IsProtected (counts devices) m safe = safe
    serve-IsProtected (ejects devices) m safe = λ k mount within.
        absurd (Memᴰ.not-nil (rw (eject-mounted service config devices m) at within))
    serve-IsProtected (looks_for_source devices) m safe =
        current_source-IsProtected service sound config devices m safe
    serve-IsProtected (selects uuid) m safe = safe

    serve_all-IsProtected :
        (cs : List MediaCall) (m : Media S) → IsProtected m → IsProtected (serve_all cs m)
    serve_all-IsProtected [] m safe = safe
    serve_all-IsProtected (c ∷ cs) m safe =
        serve_all-IsProtected cs (serve c m) (serve-IsProtected c m safe)

    -- Let the mount service return only mounts marked read-only, as the Linux one does. After any
    -- calls on a new media manager, a source that `current_source` returns is the mount point of a
    -- tracked mount that is marked read-only and stands under the device key of one of the
    -- candidates, and has the name of this candidate.
    pub current_source-serve_all :
        (cs : List MediaCall) (s : S) (devices : List BlockDevice) (m : Media S)
        (source : SourceRef)
        → current_source service config devices (serve_all cs (new_media s)) ≡ (ok (some source), m)
        → IsSafeSource (source_candidates config devices (serve_all cs (new_media s))).0 source m
    current_source-serve_all cs s devices m source h =
        current_source-IsSafeSource service sound config devices (serve_all cs (new_media s)) m
          source
          (serve_all-IsProtected cs (new_media s) (λ k mount within. absurd (Memᴰ.not-nil within)))
          h
