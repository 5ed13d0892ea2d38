-- ===== src/Rollout/Release.antt =====
-- DeployMachinesApp: a deployment with its static files, and the status of the release.
pub mod Reports
use flyctl.Base.{Bool, true, false, not, ◌&&◌, Option, none, some, List, [], ◌∷◌, if◌then◌else◌}
use flyctl.Base.Bytes.{Bytes, codes}
use flyctl.Plan.Checks.{Fault}
use flyctl.Rollout.Deploy.{and_then, wrapped}

-- The status of a release; a failed one has the text of its error.
pub data Status : Type 0 where
  running complete interrupted : Status
  failed : Bytes → Status

-- The world, and the statuses that have been sent, the last one first.
pub record Release (W : Type 0) : Type 0 where
  pub world : W
  pub statuses : List Status

pub record ReleaseCalls (W : Type 0) : Type 0 where
  pub statics_use_tigris : W → Bool × W
  pub get_app : W → Option Fault × W
  pub get_organization : W → Option Fault × W
  pub configure : W → Option Fault × W
  pub push : W → Option Fault × W
  pub finalize : W → Option Fault × W
  pub cleanup_after_failure : W → W
  pub update_release : Status → W → Option Fault × W
  pub restart_machines_app : W → Option Fault × W
  pub deploy_machines_app : W → Option Fault × W
  pub check_dns : W → Option Fault × W

abbrev pub status_of : Option Fault → Status
status_of none = complete
status_of (some f) = if f.canceled then interrupted else failed f.text

module _ {W : Type 0} (calls : ReleaseCalls W) (restart_only skip_dns_checks : Bool) where
  abbrev pub call : (W → Option Fault × W) → Release W → Option Fault × Release W
  call f r = let (o, w) = f r.world in (o, record r { world = w })

  abbrev pub send : Status → Release W → Option Fault × Release W
  send status r =
      let (o, w) = calls.update_release status r.world in
      (o, record { world = w; statuses = status ∷ r.statuses })

  -- The static files of an app that keeps them in Tigris are configured; the flag says whether it does.
  unfoldable pub configure_statics : Bool → Release W → Option Fault × Release W
  configure_statics false r = (none, r)
  configure_statics true r =
      and_then (call calls.get_app r)
        (λ r. and_then (call calls.get_organization r) (call calls.configure))

  abbrev pub push_statics : Bool → Release W → Option Fault × Release W
  push_statics has_statics r =
      if has_statics && not restart_only then call calls.push r else (none, r)

  abbrev pub run_machines : W → Option Fault × W
  run_machines w =
      if restart_only then calls.restart_machines_app w else calls.deploy_machines_app w

  abbrev pub finish_statics : Bool → Option Fault → Release W → Option Fault × Release W
  finish_statics has_statics none r =
      if has_statics && not restart_only then call calls.finalize r else (none, r)
  finish_statics has_statics (some f) r = (
    some f,
    if has_statics && not restart_only
        then record r { world = calls.cleanup_after_failure r.world }
        else r,
  )

  -- The error of the check is only printed.
  abbrev pub check : Option Fault × Release W → Option Fault × Release W
  check (some f, r) = (some f, r)
  check (none, r) = (none, if skip_dns_checks then r else (call calls.check_dns r).1)

  -- An error of the final status is only printed.
  abbrev pub report : Bool → Option Fault × Release W → Option Fault × Release W
  report has_statics (o, r) = check (finish_statics has_statics o (send (status_of o) r).1)

  abbrev pub release_with : Bool → Release W → Option Fault × Release W
  release_with has_statics r = and_then (configure_statics has_statics r) (λ r.
      and_then (wrapped (codes "failed to set release status to 'running': ") (send running r))
        (λ r.
          and_then (push_statics has_statics r) (λ r. report has_statics (call run_machines r))))

  unfoldable pub deploy_app : W → Option Fault × Release W
  deploy_app w =
      let (has_statics, v) = calls.statics_use_tigris w in
      release_with has_statics (record { world = v; statuses = [] })
