-- ===== src/Lib.antt =====
-- A verification library for parts of flyctl, the command-line client of Fly.io.
--
-- Parts and files
-- - Base: what the other modules share. Base/Lists, Base/Maps and Base/Int give native versions of
--   lists, of Go's maps with text keys (association lists, a missing key read as the zero value)
--   and of int; Base/Bytes gives texts as lists of bytes, with the functions of strings and strconv
--   that the program calls.
-- - Bluegreen: internal/command/deploy/strategy_bluegreen.go, with updateUsingBlueGreenStrategy and
--   releaseLease of internal/command/deploy/machines_deploymachinesapp.go and
--   internal/flapsutil/retry.go. Bluegreen/Types and Bluegreen/Errors have the data;
--   Bluegreen/Platform has the state of a blueGreen (Deployment) and the calls that leave it
--   (Platform); Bluegreen/Starts is forceStartRepresentatives; Bluegreen/Images is
--   DetectMultipleImageVersions; Bluegreen/Waits has the three wait loops; Bluegreen/Launch is
--   launchGreenMachineWithRetry; Bluegreen/Stages has the stages that change machines;
--   Bluegreen/Run is Deploy, Rollback and updateUsingBlueGreenStrategy. The other files have the
--   proofs: Bluegreen/Moves and Bluegreen/Traces are rules for the combinators and the log,
--   Bluegreen/Early, Bluegreen/Traffic and Bluegreen/Late go through the stages.
-- - Scale: Scale/Converge is convergeGroupCounts of internal/command/scale/count_machines.go;
--   Scale/Volumes has the volumes of new machines, of internal/command/scale/machine_defaults.go,
--   and the choice that launchMachine makes among them; Scale/Actions is computeActions and the
--   tasks of its plan, and Scale/Actions/Tasks runs one; Scale/Arguments is parseGroupCounts of
--   internal/command/scale/count.go, with the checks of runScaleCount. The other modules below
--   these are proofs. Volumes and guests are of any types.
-- - Version: internal/version/version.go. Version/Parse is Parse.
-- - Machines: internal/machine. Machines/Api is what the package calls, Machines/Leasable has the
--   operations of leasable_machine.go, Machines/Waits the loops of leasable_machine.go, with
--   Machines/Waits/Refresh for the background refresh and Machines/Waits/Starts for wait.go,
--   Machines/Sets is machine_set.go and lease.go. The other modules below them are proofs.
-- - Plan: internal/command/deploy/plan.go. Plan/Checks is updateMachineWChecks with
--   updateOrCreateMachine, and waitForMachineState; Plan/Leases is acquireLeases, releaseLeases and
--   clearMachineLease; Plan/Recovery is appState, the pairs of machines and the attempts of
--   updateMachinesWRecovery. The modules below them are proofs.
-- - Rollout: the strategies of internal/command/deploy/machines_deploymachinesapp.go that update
--   machines in pools. Rollout/Entries is the update of one machine: updateMachine,
--   updateMachineByReplace, updateMachineInPlace, waitForMachine; Rollout/Pool is a pool of such
--   updates, Rollout/Group is updateEntriesGroup, Rollout/Rolling has getPoolSize,
--   updateUsingRollingStrategy and updateUsingImmediateStrategy, Rollout/Creation is
--   spawnMachineInGroup and deployCreateMachinesForGroups, Rollout/Canary is deployCanaryMachines,
--   Rollout/Deploy is deployMachinesApp with updateExistingMachines, and Rollout/Release is
--   DeployMachinesApp. The modules below them are proofs.
-- - Groups: the process groups of an app. Groups/Names and Groups/Flatten are
--   internal/appconfig/processgroups.go, over the fields of a Config that the groups concern;
--   Groups/Changes is resolveProcessGroupChanges of
--   internal/command/deploy/machines_deploymachinesapp.go. The modules below them are proofs.
--
-- How the parts correspond to the code
-- - A method of blueGreen is a function from a Deployment to a result and a Deployment. The log of
--   a Deployment is a list of the calls that change a machine, with the error of each; it has no
--   counterpart in the code.
-- - The Machines API, the leased machines, the clock and the user's Ctrl+C are a parameter, a
--   Platform over a world of any type. Nothing is assumed of it.
-- - The packages retry-go and conc are a parameter, a Runner. A retry is assumed to be a sequence
--   of runs that ends with the first success, and may give up with an error at any point; a pool is
--   assumed to run each task once, in any order, and to return the first error. The calls of two
--   tasks of one pool do not interleave in the model; the tasks of a pool work on different
--   machines.
-- - An error is the list of the causes that errors.Is and errors.As find in it, and errors.Join
--   appends. suggestChangeWaitTimeout replaces a timeout by an error with the same text and advice
--   for the user, and nothing looks at its causes afterwards, so it is left out.
-- - The code shares the launch inputs of the blue machines with the green ones and changes them
--   there. In the model the blue entries keep their inputs: after the green machines are created
--   the code reads only their ids.
-- - In Machines the API is a parameter, a Flaps over a world of any type. The machines of a set
--   share one world, which goes through them in the order of the list, where the code starts a
--   goroutine for each. The log of a Leasable is a list of its calls and has no counterpart in the
--   code. The pool of lease.go is a parameter. A loop of Machines/Waits works on the list of the
--   rounds that it sees, each with the error of its call and the state of its context.
-- - In Plan an error is a Fault, which says what errors.As and errors.Is find in it. The machines
--   that the app states and the pairs share are values there: after the leases are acquired, the
--   nonces of the pairs are carried to the states that the code would change through the shared
--   pointers. The code goes through the maps of machines in any order; the model goes in the order
--   in which the ids were put in. The update of the process groups is a parameter, and so are the
--   checks of a machine. The loops run on the attempts that are left.
-- - In Rollout a pool is a state whose steps are events: the next task begins if the limit of
--   the pool leaves room, a running task returns, the context is canceled. A task is run in one
--   piece when it returns, and until then it counts as running; the tasks of a pool work on
--   different machines. The package conc is assumed to begin the tasks in their order, at most
--   so many at a time as the limit says, and to cancel the context when a task returns an
--   error, if it is told to. The log of a Site is a list of the calls and has no counterpart in
--   the code. What warnAboutIncorrectListenAddress calls and prints is one call. The float
--   arithmetic of getPoolSize and the sort by ids are parameters. The jobs of the rolling
--   strategy are a list; the code runs two for each process group at the same time, and up to
--   16 groups.
-- - Rollout/Deploy and Rollout/Release take the calls that they make as a record; the calls that are
--   functions of other modules here can be put in. The steps of a plan of Rollout/Deploy have no
--   counterpart in the code. In Rollout/Canary the group of tasks is assumed to cancel its context
--   when a task returns an error, and to return the error that came first. The statuses of
--   Rollout/Release and the canaries that are destroyed are kept in lists for the theorems. A new
--   context for the last status of an interrupted release is left out.
-- - In Groups helpers.Clone and lo.MaxBy are parameters. A theorem on Flatten assumes that the
--   clone copies all but two private names, and that MaxBy gives an element than which none is
--   better. The sections of a Config have their contents in one type, which Flatten does not look
--   at; lo.Filter, lo.PickBy and lo.SomeBy are written as the loops that they are documented to be,
--   and a map that is picked from keeps the order of its association list.
-- - In Bluegreen a wait loop works on the list of its rounds up to the tick of its timer; each
--   round shows whether the user has aborted and what one goroutine has reported.
-- - Go's int is the integers in Scale and Version; Parse refuses what does not fit an int of 64
--   bits. These wrap around to 64 bits: the product of convergeGroupCounts, the sum of
--   computeActions of machines and a change, and the sums of Increment; the theorems on them
--   say which are to be ints. The other sums, of counts of machines in the loops of
--   convergeGroupCounts, do not wrap in the model. These two loops run on fuel, and a theorem
--   gives an amount that is enough. The loop of launchGreenMachineWithRetry runs on the
--   attempts that are left.
-- - In Scale lo.Uniq and lo.Keys are parameters, and a theorem assumes that Uniq leaves no text
--   twice and does not empty a list. The configuration without its standbys and ToMachineConfig are
--   parameters of Scale/Actions. The code goes through Go maps in any order; the model goes in the
--   order in which the keys were put in. The pool that runs the tasks of a plan is not modelled.
-- - The date functions of the package time are arguments in Version.
--
-- Not modelled: the pools of updateProcessGroup, the update of existing machines with recovery
-- around the plan of updateMachinesWRecovery, the launch inputs, DeleteZombies, the printing
-- of states and warnings, the JSON methods of versions, and the parts of the repository that are
-- I/O, generated code or wiring of commands.
pub mod Bluegreen
pub mod Base
pub mod Scale
pub mod Version
pub mod Machines
pub mod Groups
pub mod Plan
pub mod Rollout
