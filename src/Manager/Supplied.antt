-- ===== src/Manager/Supplied.antt =====
-- The resource manager as the diff calculator is made with it (NewResourceManager of
-- resource_manager.go, NewDiffCalculator of diff_calculator.go): its operations as those of the
-- interface, and what the clients below it must do for the calculator's theorems to apply.
use crossplane_diff.Prelude.{subst, Bool, Option, none, some, List}
use crossplane_diff.Text.{Text}
use crossplane_diff.GoMap.{GoMap}
use crossplane_diff.Objects.{Fields}
use crossplane_diff.Objects.Api.{Api, Gvk}
use crossplane_diff.Result.{Result, ok, err, panic}
use crossplane_diff.Calculator.Single.{Node, Clients}
use crossplane_diff.Calculator.Single.Returned.{IsReturned, IsReturning, wrapping-IsReturned}
use crossplane_diff.Manager.Owners.{Ownership, update_owner_refs}
use crossplane_diff.Manager.Fetch.{ResourceReads, listed, fetch_current_object}
use crossplane_diff.Manager.Fetch.Current.{ByOwner, Outcome, fetch_current_object-Outcome}
use crossplane_diff.Manager.Fetch.Current.Outcome.{named, failed, stopped, owned}

module _ (api : Api) (own : Ownership) (reads : ResourceReads) (field_managers : Fields → List Text)
    (apply : Fields → Text → Result Fields) (tree : Fields → Result Node) where
  abbrev pub manager_clients : Clients
  manager_clients = record {
    fetch_current_object =
        λ composite desired. (fetch_current_object api reads composite desired).1;
    update_owner_refs = update_owner_refs api own;
    managers = field_managers;
    dry_run_apply = apply;
    get_resource_tree = tree;
  }

  module _
      (get_returns : (gvk : Gvk) (namespace name : Text)
        → IsReturned (reads.get_resource gvk namespace name))
      (list_returns : (gvk : Gvk) (namespace : Text) (labels : GoMap Text)
        → IsReturned (reads.get_resources_by_label gvk namespace labels)) where
    owner-IsReturned :
        (desired : Fields) (composite : Option Fields) (r : Result (Option Fields))
        → ByOwner api reads desired composite r
        → IsReturned r
    owner-IsReturned desired composite (ok found) h = tt
    owner-IsReturned desired composite (err e) h = tt
    owner-IsReturned desired none panic h = absurd h
    owner-IsReturned desired (some composite) panic h =
        let returned : IsReturned (listed api reads composite desired) =
          wrapping-IsReturned _ _ (list_returns _ _ _) in
        absurd (subst (λ (r : Result (List Fields)). IsReturned r) h returned)

    outcome-IsReturned :
        (desired : Fields) (composite : Option Fields) (p : Bool × Result (Option Fields))
        → Outcome api reads desired composite p
        → IsReturned p.1
    outcome-IsReturned desired composite p (named filled e warned) = tt
    outcome-IsReturned desired composite p (failed filled e found) = tt
    outcome-IsReturned desired composite p (stopped e) =
        absurd (subst (λ (r : Result (Option Fields)). IsReturned r) e (get_returns _ _ _))
    outcome-IsReturned desired composite p (owned {r = r} undecided h) =
        owner-IsReturned desired composite r h

    -- The manager returns what the calculator asks it for, where its clients return.
    pub manager-IsReturning :
        ((o : Fields) (m : Text) → IsReturned (apply o m)) → IsReturning manager_clients
    manager-IsReturning apply_returns = record {
      fetch = λ composite desired.
          outcome-IsReturned desired composite (fetch_current_object api reads composite desired)
            (fetch_current_object-Outcome api reads desired composite);
      apply = apply_returns;
    }
