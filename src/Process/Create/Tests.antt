-- ===== src/Process/Create/Tests.antt =====
-- A task with three areas, and the theorem on freeing them there.
use sbrocks.Prelude.{◌≡◌, refl, arith, some, []}
use sbrocks.Process.{Kernel, TaskState}
use sbrocks.Prelude.Chain.{IsChain}
use sbrocks.Process.Tests.{three_tasks}
use sbrocks.Process.Create.{
  area_next_of, add_to_free_vm_list, free_areas, free_area_pages, is_stack,
}
use sbrocks.Process.Create.Areas.{cleared, free_areas-first_only}

-- The areas of task 3 at 1000, 1056, 1112 and so on; its parent keeps their pages.
abbrev areas_kernel : Kernel
areas_kernel = three_tasks TaskState.task_runnable

kept_pages : free_area_pages 300 1000 areas_kernel ≡ some areas_kernel
unfolding free_area_pages is_stack
kept_pages = refl

no_free_areas : IsChain (area_next_of areas_kernel) 0 []
unfolding IsChain
no_free_areas = refl

free_areas-first_only_example :
    (k' : Kernel) × (add_to_free_vm_list 5 1000 (cleared 1000 areas_kernel) ≡ some k')
    × (free_areas 5 300 1000 areas_kernel ≡ some k')
free_areas-first_only_example =
    free_areas-first_only 3 300 1000 [] areas_kernel areas_kernel (λ e. omega arith) kept_pages
      no_free_areas (omega arith)
