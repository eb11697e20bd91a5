-- ===== src/Slaves/Select.antt =====
-- internal/master/slave_manager.go: the choice of the slave for an upload and for a download.
use weave_ftpd.Base.{
  ℕ, zero, suc, List, [], ◌∷◌, Bool, ◌&&◌, ◌||◌, not, Option, none, some, if◌then◌else◌, ltb, ◌==◌,
  Text, text_eq, trim_space, Dict, length,
}
use weave_ftpd.Base.Int.{ℤ, pos, ltb_ℤ}
use weave_ftpd.GoPath.Clean.{slash, dot, dir}
use weave_ftpd.Vfs.State.{VfsFile}
use weave_ftpd.Vfs.Read.{get_file}
use weave_ftpd.Slaves.Policy.{
  RemoteSlave, SlaveRoutePolicy, SlaveManager, get_policy, is_slave_read_only, get_slave, rooted,
  slave_can_store_path, section_from_upload_path, slave_policy_accepts,
}

unfoldable pub keep_available : Dict RemoteSlave → List RemoteSlave
keep_available [] = []
keep_available ((name, rs) ∷ rest) =
    let others = keep_available rest in if rs.available then rs ∷ others else others

unfoldable pub get_available_slaves : SlaveManager → List RemoteSlave
unfolding keep_available
get_available_slaves sm = keep_available sm.slaves

-- A slave with its weight. The code keeps the weights in a map by the slaves' names, which are the
-- keys of `slaves`.
abbrev pub Weighted : Type 0
Weighted = RemoteSlave × ℤ

unfoldable pub keep_read_write : SlaveManager → List RemoteSlave → List RemoteSlave
keep_read_write sm [] = []
keep_read_write sm (rs ∷ rest) =
    let others = keep_read_write sm rest in
    if is_slave_read_only rs.name sm then others else rs ∷ others

unfoldable pub get_writable_available_slaves : SlaveManager → List RemoteSlave
unfolding get_available_slaves keep_read_write
get_writable_available_slaves sm = keep_read_write sm (get_available_slaves sm)

abbrev pub weight_by : Option SlaveRoutePolicy → Text → Text → Option ℤ
weight_by none section path = some (pos 1)
weight_by (some policy) section path =
    if policy.read_only
    then none
    else if slave_policy_accepts policy section path
    then some policy.weight
    else none

-- The weight with which a slave is eligible, by its policy.
unfoldable pub policy_weight : SlaveManager → Text → RemoteSlave → Option ℤ
unfolding get_policy
policy_weight sm upload_path rs =
    if slave_can_store_path rs upload_path
    then weight_by (get_policy rs.name sm) (section_from_upload_path upload_path) upload_path
    else none

-- The same for the fallback: policies only keep read-only slaves out.
unfoldable pub fallback_weight : SlaveManager → Text → RemoteSlave → Option ℤ
fallback_weight sm upload_path rs =
    if slave_can_store_path rs upload_path
    then (if is_slave_read_only rs.name sm then none else some (pos 1))
    else none

abbrev pub put_weighted : RemoteSlave → Option ℤ → List Weighted → List Weighted
put_weighted rs none rest = rest
put_weighted rs (some w) rest = (rs, w) ∷ rest

unfoldable pub weigh : (RemoteSlave → Option ℤ) → List RemoteSlave → List Weighted
weigh f [] = []
weigh f (rs ∷ rest) = put_weighted rs (f rs) (weigh f rest)

abbrev pub or_else : List Weighted → List Weighted → List Weighted
or_else [] other = other
or_else (e ∷ es) other = e ∷ es

unfoldable pub eligible_slaves : SlaveManager → Text → List Weighted
unfolding weigh
eligible_slaves sm upload_path =
    let slaves = get_available_slaves sm in
    or_else (weigh (policy_weight sm upload_path) slaves)
      (weigh (fallback_weight sm upload_path) slaves)

-- float64(a) / float64(b), as its bits: for numbers that are not negative these are in the order of
-- the quotients.
module _ (quotient_bits : ℤ → ℤ → ℕ) where
  unfoldable pub score : Weighted → ℕ
  score (rs, weight) =
      quotient_bits rs.active_transfers (if ltb_ℤ weight (pos 1) then pos 1 else weight)

  unfoldable pub beats : Weighted → Weighted → Bool
  unfolding score
  beats e best =
      ltb (score e) (score best)
      || (score e == score best && ltb_ℤ best.0.space_available e.0.space_available)

  unfoldable pub best_of : Weighted → List Weighted → Weighted
  unfolding beats
  best_of best [] = best
  best_of best (e ∷ rest) = best_of (if beats e best then e else best) rest

  unfoldable pub pick : List Weighted → Option RemoteSlave
  unfolding best_of
  pick [] = none
  pick (e ∷ rest) = some (best_of e rest).0

-- The directories above a path, up to the root, as the loop with path.Dir visits them.
unfoldable pub dirs_above : ℕ → Text → List Text
dirs_above zero p = dir p ∷ []
dirs_above (suc fuel) p =
    let rest = dirs_above fuel (dir p) in
    if text_eq (dir p) slash || text_eq (dir p) dot then dir p ∷ [] else dir p ∷ rest

unfoldable pub owner_of : Option VfsFile → Option Text
owner_of none = none
owner_of (some f) =
    if f.is_dir && (not f.is_symlink && not (text_eq (trim_space f.slave_name) []))
    then some f.slave_name
    else none

unfoldable pub fit_owner : SlaveManager → Text → Option RemoteSlave → Option RemoteSlave
fit_owner sm path none = none
fit_owner sm path (some rs) =
    if rs.available && (not (is_slave_read_only rs.name sm) && slave_can_store_path rs path)
    then some rs
    else none

unfoldable pub slave_of : SlaveManager → Option Text → Option RemoteSlave
slave_of sm none = none
slave_of sm (some name) = get_slave name sm

-- The slave of the directory, if it may take the upload.
unfoldable pub directory_owner : SlaveManager → Text → Text → Option RemoteSlave
unfolding owner_of fit_owner slave_of
directory_owner sm path d = fit_owner sm path (slave_of sm (owner_of (get_file d sm.vfs)))

abbrev pub or_next : Option RemoteSlave → Option RemoteSlave → Option RemoteSlave
or_next none next = next
or_next (some rs) next = some rs

unfoldable pub first_owner : SlaveManager → Text → List Text → Option RemoteSlave
unfolding directory_owner
first_owner sm path [] = none
first_owner sm path (d ∷ ds) = or_next (directory_owner sm path d) (first_owner sm path ds)

unfoldable pub select_owned_ancestor_slave_for_upload : SlaveManager → Text → Option RemoteSlave
unfolding first_owner dirs_above
select_owned_ancestor_slave_for_upload sm upload_path =
    let p = rooted upload_path in
    if text_eq p slash || text_eq p dot then none else first_owner sm p (dirs_above (length p) p)

module _ (quotient_bits : ℤ → ℤ → ℕ) where
  unfoldable pub select_slave_for_upload : SlaveManager → Text → Option RemoteSlave
  unfolding pick
  select_slave_for_upload sm upload_path =
      or_next (select_owned_ancestor_slave_for_upload sm upload_path)
        (pick quotient_bits (eligible_slaves sm upload_path))

abbrev if_available : Option RemoteSlave → Option RemoteSlave
if_available none = none
if_available (some rs) = if rs.available then some rs else none

abbrev slave_with : SlaveManager → Option VfsFile → Option RemoteSlave
slave_with sm none = none
slave_with sm (some f) = if_available (get_slave f.slave_name sm)

unfoldable pub select_slave_for_download : SlaveManager → Text → Option RemoteSlave
select_slave_for_download sm path = slave_with sm (get_file path sm.vfs)

abbrev pub only_owner : SlaveManager → Option RemoteSlave → List RemoteSlave
only_owner sm none = get_writable_available_slaves sm
only_owner sm (some rs) =
    if rs.available && not (is_slave_read_only rs.name sm)
    then rs ∷ []
    else get_writable_available_slaves sm

abbrev pub targets_of : SlaveManager → Option VfsFile → List RemoteSlave
targets_of sm none = get_writable_available_slaves sm
targets_of sm (some f) =
    if not (text_eq (trim_space f.slave_name) []) && not f.is_symlink
    then only_owner sm (get_slave f.slave_name sm)
    else get_writable_available_slaves sm

unfoldable pub delete_targets_for_path : SlaveManager → Text → List RemoteSlave
delete_targets_for_path sm path = targets_of sm (get_file path sm.vfs)
