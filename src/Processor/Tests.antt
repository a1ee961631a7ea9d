-- ===== src/Processor/Tests.antt =====
-- A processor with the virtualization module and guest ids, in root mode.
use prpl_hypervisor.Base.{◌≡◌, ◌≢◌, ◌⊎◌, ◌^◌, ◌*◌, ◌==◌, ◌&&◌, refl, if◌then◌else◌}
use prpl_hypervisor.Machine.{Cpu}
use prpl_hypervisor.Machine.Sample.{sample_cpu}
use prpl_hypervisor.Processor.{
  low_level_proc_init, has_vz, is_root_mode, is_root_asid, has_guest_id, configure_gpr_shadow,
  set_guest_access, has_1k_page_support, disable_1k_page_support,
}
use prpl_hypervisor.Processor.Setup.{IsSupported, SetUp, low_level_proc_init_lem}

abbrev fresh : Cpu
fresh = record sample_cpu {
  cp0 = λ reg sel.
      if reg == 16 && sel == 3
      then 2 ^ 23
      else if reg == 12 && sel == 6
      then 2 ^ 22
      else if reg == 12 && sel == 2
      then 7 * 2 ^ 26
      else if reg == 12 && sel == 0
      then 4
      else 0;
}

low_level_proc_init_lem_example :
    let (c', status) = low_level_proc_init fresh in
    (IsSupported fresh × (status ≡ 0) × SetUp fresh c')
    ⊎ ((¬ IsSupported fresh) × (status ≢ 0) × (c' ≡ fresh))
low_level_proc_init_lem_example = low_level_proc_init_lem fresh

fresh_result : (low_level_proc_init fresh).1 ≡ 0
unfolding low_level_proc_init has_vz is_root_mode is_root_asid has_guest_id configure_gpr_shadow
    set_guest_access has_1k_page_support disable_1k_page_support
fresh_result = refl
