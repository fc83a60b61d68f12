-- ===== src/System/Update.antt =====
-- What becomes of a change to a manifest, from pkg/playbook and cmd/othela/server.go to cmd/agent/main.go.
mod Tests
use helvilette.Prelude.{
  ℕ, zero, suc, String, true, ◌≡◌, refl, sym, ap, ◌∙◌, some, none, inl, ok, List, In, arith, eq_iff,
}
use mathlib.Core.Path.{subst}
use helvilette.Prelude.Dict.{Dict, get, lookup}
use helvilette.Manifest.Matching.Same.{SameMap}
use helvilette.FilePath.{◌<>◌}
use helvilette.Types.{Job}
use helvilette.Storage.{NodeStore, ReportStore, label}
use helvilette.Playbook.{Playbook, generate_id}
use helvilette.Playbook.Loader.{Disk, Loader, Entry, scan, build_playbook}
use helvilette.Playbook.Loader.Laws.{scan_iff}
use helvilette.Server.{Server, handle_sync, choose_job, labels_of, json_response, job}
use helvilette.Server.Routes.{serve, handle, sync}
use helvilette.Server.Stores.{choose_job_same, lookup-labels_of}
use helvilette.Server.Sync.{IsFirstMatch}
use helvilette.Server.Start.Dispatch.{In-middle}
use helvilette.Agent.Execute.{Machine}
use helvilette.Agent.Client.{poll}
use helvilette.Agent.Process.{Agent, process_job, tick, ticks}
use helvilette.System.{Wire, online, Routed}
use helvilette.System.Beside.{machine_beside}
use helvilette.System.Deployed.{first_match_chosen}

-- The disk, and what a scan of it gives.
pub record Scanned (disk : Disk) (l : Loader) (pbs : List Playbook) : Type 0 where
  pub entries : List Entry
  pub readable : disk.read_dir l.base_dir ≡ ok entries
  pub found : (scan disk l).1 ≡ ok pbs

Scanned-id :
    (disk : Disk) (l : Loader) (pbs : List Playbook) (pb : Playbook)
    → Scanned disk l pbs
    → In pb pbs
    → pb.id ≡ generate_id disk.sha256 pb.name
unfolding build_playbook
Scanned-id disk l pbs pb sc at =
    let (e, _, p) = (scan_iff disk l sc.entries pbs pb sc.readable sc.found).0 at in
    ap (λ (x : Playbook). x.id) p.built
    ∙ ap (generate_id disk.sha256) (sym (ap (λ (x : Playbook). x.name) p.built))

module _ {env : String} {labels : Dict String} {pbs : List Playbook} {j : Job}
    (first : IsFirstMatch env labels pbs j) where
  first-In : In first.playbook pbs
  first-In =
      subst (In first.playbook) (sym first.split)
        (In-middle first.before first.after first.playbook)

  first-job_id : j.job_id ≡ "job-" <> first.playbook.id <> "-" <> first.group.name
  first-job_id = ap (λ (x : Job). x.job_id) first.built

-- Jobs of the same directory and node group have the same id, whatever their manifests say.
same_job_id :
    {env env' : String} {labels labels' : Dict String} (disk disk' : Disk) (l l' : Loader)
    {pbs pbs' : List Playbook} {j j' : Job} (first : IsFirstMatch env labels pbs j)
    (first' : IsFirstMatch env' labels' pbs' j')
    → disk.sha256 ≡ disk'.sha256
    → Scanned disk l pbs
    → Scanned disk' l' pbs'
    → first.playbook.name ≡ first'.playbook.name
    → first.group.name ≡ first'.group.name
    → j'.job_id ≡ j.job_id
same_job_id disk disk' l l' {pbs} {pbs'} first first' hash sc sc' names groups =
    let id = Scanned-id disk l pbs first.playbook sc (first-In first) in
    let id' = Scanned-id disk' l' pbs' first'.playbook sc' (first-In first') in
    let ids : first'.playbook.id ≡ first.playbook.id = cc (id, id', hash, names) in
    cc (first-job_id first, first-job_id first', ids, groups)

module _ {V Duration : Type 0} (M : Machine V) (wire : Wire) (a : Agent Duration)
    (vars : Dict String)
    (route : Routed wire "GET" (a.config.othela_url <> "/sync/" <> a.config.node_id) sync vars)
    (id : get vars "node_id" ≡ a.config.node_id) where
  module _ {N : NodeStore} {R : ReportStore} (s : Server N R) (v : V) (j : Job)
      (decoded : wire.decode_job (wire.encode (job j)) ≡ ok j) where
    handle_sync-known :
        N.is_registered s.nodes a.config.node_id ≡ true
        → ((key : String) → label N s.nodes a.config.node_id key ≡ lookup key a.config.labels)
        → choose_job wire.env s.current_job s.playbooks a.config.labels ≡ some j
        → handle_sync wire.env s a.config.node_id ≡ json_response 200 (job j)
    unfolding handle_sync
    handle_sync-known known labels chosen =
        let l = labels_of N s.nodes a.config.node_id in
        let same : SameMap l a.config.labels =
          λ key. lookup-labels_of N s.nodes a.config.node_id key ∙ labels key in
        ground (
          arith,
          known,
          choose_job_same wire.env l a.config.labels same s.current_job s.playbooks,
          chosen,
        )

    module _ (answered : handle_sync wire.env s a.config.node_id ≡ json_response 200 (job j)) where
      poll-known : poll (online wire) a.config (s, v) ≡ ((s, v), ok (some j))
      unfolding poll serve handle
      poll-known = ground (arith, route, id, decoded)

      tick-done :
          j.job_id ≡ a.last_job_id → tick (machine_beside M) (online wire) (a, (s, v)) ≡ (a, (s, v))
      unfolding tick process_job
      tick-done same = ground (arith, poll-known, eq_iff j.job_id a.last_job_id)

      ticks-done :
          j.job_id ≡ a.last_job_id
          → (n : ℕ) → ticks (machine_beside M) (online wire) n (a, (s, v)) ≡ (a, (s, v))
      unfolding ticks
      ticks-done same zero = refl
      ticks-done same (suc n) = rw (tick-done same) (ticks-done same n)

  -- An agent has last recorded the job that the playbooks of one scan declare for its labels. A
  -- server that knows its node with these labels has the playbooks of another scan: the manifest
  -- may have changed, but the job for the labels is of the same directory and node group. Then that
  -- job has the same id; and however long the agent goes on polling, over a network that loses
  -- nothing, it never runs it: neither the agent nor the server nor the machine changes. The two
  -- scans hash alike, the URL of the poll leads to its handler with the node's id, and the job
  -- decodes as it was encoded.
  pub update-Ignored :
      {N : NodeStore} {R : ReportStore} (disk disk' : Disk) (l l' : Loader) (env : String)
      (pbs pbs' : List Playbook) (j j' : Job) (first : IsFirstMatch env a.config.labels pbs j)
      (first' : IsFirstMatch wire.env a.config.labels pbs' j') (n : ℕ) (s : Server N R) (v : V)
      → disk.sha256 ≡ disk'.sha256
      → Scanned disk l pbs
      → Scanned disk' l' pbs'
      → first.playbook.name ≡ first'.playbook.name
      → first.group.name ≡ first'.group.name
      → a.last_job_id ≡ j.job_id
      → s.playbooks ≡ pbs'
      → N.is_registered s.nodes a.config.node_id ≡ true
      → ((key : String) → label N s.nodes a.config.node_id key ≡ lookup key a.config.labels)
      → wire.decode_job (wire.encode (job j')) ≡ ok j'
      → (j'.job_id ≡ j.job_id)
        × (ticks (machine_beside M) (online wire) n (a, (s, v)) ≡ (a, (s, v)))
  update-Ignored disk disk' l l' env pbs pbs' j j' first first' n s v hash sc sc' names groups last
        loaded known labels decoded =
      let same = same_job_id disk disk' l l' first first' hash sc sc' names groups in
      let chosen =
        first_match_chosen wire.env s.current_job a.config.labels s.playbooks pbs' j' loaded
          first' in
      let answered = handle_sync-known s v j' decoded known labels chosen in
      (same, ticks-done s v j' decoded answered (same ∙ sym last) n)
