-- ===== src/Bluegreen/Images.antt =====
-- `DetectMultipleImageVersions` and what it calls.
use flyctl.Base.{
  ℕ, String, Bool, true, not, ◌&&◌, ◌||◌, Option, none, some, List, [], ◌∷◌, ◌++◌, Dict, lookup,
  put, length, ◌==◌, ltb, if◌then◌else◌,
}
use flyctl.Bluegreen.Types.{Machine, Entry, host_is_ok, image_ref_is_empty}
use flyctl.Bluegreen.Errors.{Result, ok, err, multiple_images}
use flyctl.Bluegreen.Platform.{Platform, Runner, M, pure, fail, ◌>>=◌, ask}

abbrev pub image_ref_retry_attempts : ℕ
image_ref_retry_attempts = 3

-- The images with the ids of their machines, and the machines that could not be verified.
pub record Tally : Type 0 where
  pub images : Dict (List String)
  pub unreachable : List String

abbrev pub known : Option (List String) → List String
known none = []
known (some ids) = ids

unfoldable pub tally_image : Machine → Tally → Tally
tally_image m t = record t {
  images = put m.image (known (lookup m.image t.images) ++ (m.id ∷ [])) t.images;
}

unfoldable pub tally_unreachable : Machine → Tally → Tally
tally_unreachable m t = record t { unreachable = t.unreachable ++ (m.id ∷ []) }

-- What a second look at a machine with no image data shows.
unfoldable pub tally_fresh : Machine → Result Machine → Tally → Tally
tally_fresh m (err e) t = tally_unreachable m t
tally_fresh m (ok fresh) t =
    if not (host_is_ok fresh) || image_ref_is_empty fresh
    then tally_unreachable m t
    else tally_image fresh t

-- The test at the end of the loop.
unfoldable pub is_single_image : Tally → Bool
is_single_image t = length t.images == 1 || (length t.images == 0 && ltb 0 (length t.unreachable))

module _ {W : Type 0} (platform : Platform W) (runner : Runner W) where
  unfoldable pub refresh_machine_image_ref : String → M W Machine
  refresh_machine_image_ref id =
      runner.retry Machine image_ref_retry_attempts (λ e. true) (ask (platform.get id))

  -- fresh, err := …, with the error as a value
  abbrev pub attempt : M W Machine → M W (Result Machine)
  attempt m s = (ok (m s).0, (m s).1)

  unfoldable pub tally_machine : Machine → Tally → M W Tally
  tally_machine m t =
      if not (host_is_ok m)
      then pure (tally_unreachable m t)
      else if image_ref_is_empty m
      then (do fresh ← attempt (refresh_machine_image_ref m.id); pure (tally_fresh m fresh t))
      else pure (tally_image m t)

  unfoldable pub tally_machines : List Entry → Tally → M W Tally
  tally_machines [] t = pure t
  tally_machines (e ∷ es) t = tally_machine e.machine t >>= λ t'. tally_machines es t'

  unfoldable pub detect_multiple_image_versions : List Entry → M W (Unit {0})
  detect_multiple_image_versions blue = do
    t ← tally_machines blue (record { images = []; unreachable = [] })
    if is_single_image t then pure tt else fail (multiple_images ∷ [])
