-- ===== src/Raft/Safety/LogTests.antt =====
-- A leader that appends a command.
use draft.Base.{ℕ, ◌≡◌, refl, Option, none, some, [], ◌∷◌, codes}
use draft.Log.{append, append_at, place, finish, sizes, last_entry_index, last_entry}
use draft.Log.Room.{grow_until, lacks_room}
use draft.Log.Entry.{make_entry}
use draft.Log.Memory.{put_entry, put_end}
use draft.Log.Tests.{small_disk, one_entry, config_a, one_entry-Rep}
use draft.Raft.Types.{Raft, leader}
use draft.Raft.Member.{append as raft_append, append_entry}
use draft.Raft.Rpc.Steps.{commanded}
use draft.Raft.Rpc.Once.{Run, stay, go_on}
use draft.Raft.Safety.AppendOnly.{Extends, IsUncompacted, leader_append_only}
use draft.Raft.Tests.{server}

abbrev or_else {ℓ} : {A : Type ℓ} → A → Option A → A
or_else d none = d
or_else d (some a) = a

abbrev after_command : Raft × Option ℕ
after_command = or_else (server leader, none) (raft_append small_disk (codes "x") (server leader))

grown_is : raft_append small_disk (codes "x") (server leader) ≡ some after_command
unfolding raft_append append_entry append append_at place finish sizes last_entry_index last_entry
    grow_until lacks_room make_entry put_entry put_end
grown_is = refl

grown_leads :
    (after_command.0.role ≡ leader) × (after_command.0.curr_term ≡ (server leader).curr_term)
unfolding raft_append append_entry append append_at place finish sizes last_entry_index last_entry
    grow_until lacks_room make_entry put_entry put_end
grown_leads = (refl, refl)

one_command : Run small_disk (server leader) after_command.0
one_command = go_on (commanded (codes "x") after_command grown_is) stay

one_command-IsUncompacted : IsUncompacted one_command
unfolding one_command
one_command-IsUncompacted = (refl, tt)

leader_append_only_example : Extends one_entry (config_a ∷ []) after_command.0.log
leader_append_only_example =
    leader_append_only small_disk (server leader) after_command.0 one_command (config_a ∷ [])
      one_command-IsUncompacted refl grown_leads.0 grown_leads.1 one_entry-Rep
