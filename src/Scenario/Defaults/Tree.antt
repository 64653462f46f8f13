-- ===== src/Scenario/Defaults/Tree.antt =====
-- defaults.ts: the Service-Information node of a service type and profile.
use ocs_testbench.Common.{
  ℕ, String, Bool, true, false, List, [], ◌∷◌, Option, none, some, or_else, str_eq, if◌then◌else◌,
}
use ocs_testbench.Scenario.{
  ServiceType, voice, data_service, sms, ussd1, ussd2, ServiceProfile, three_gpp, huawei, AvpNode,
  leaf, group, AvpTree, nil, cons, info,
}

-- A leaf or group of a vendor, with `locked: true`, and a leaf that is not locked.
abbrev locked_leaf : String → ℕ → ℕ → Option String → AvpNode
locked_leaf name code vendor ref = leaf (record {
  name = name;
  code = code;
  vendor_id = some vendor;
  value_ref = ref;
  locked = some true;
})

abbrev locked_group : String → ℕ → ℕ → AvpTree → AvpNode
locked_group name code vendor kids =
    group
      (record {
        name = name;
        code = code;
        vendor_id = some vendor;
        value_ref = none;
        locked = some true;
      })
      kids

abbrev in_leaf : String → ℕ → String → AvpNode
in_leaf name code ref = leaf (record {
  name = name;
  code = code;
  vendor_id = some 2011;
  value_ref = some ref;
  locked = none;
})

abbrev ims_leaf : String → ℕ → String → AvpNode
ims_leaf name code ref = locked_leaf name code 10415 (some ref)

abbrev forest : List AvpNode → AvpTree
forest [] = nil
forest (n ∷ ns) = cons n (forest ns)

unfoldable pub build_3gpp_children : ServiceType → AvpTree
build_3gpp_children voice =
    cons
      (locked_group "IMS-Information" 876 10415 (
        forest (
          ims_leaf "Node-Functionality" 862 "0"
          ∷ ims_leaf "Role-Of-Node" 829 "ROLE_OF_NODE"
          ∷ ims_leaf "Calling-Party-Address" 831 "CALLING_PARTY_ADDRESS"
          ∷ ims_leaf "Called-Party-Address" 832 "CALLED_PARTY_ADDRESS"
          ∷ [])))
      nil
build_3gpp_children data_service = cons (locked_leaf "PS-Information" 874 10415 none) nil
build_3gpp_children sms = cons (locked_leaf "SMS-Information" 2000 10415 none) nil
build_3gpp_children ussd1 = cons (locked_leaf "USSD-Information" 885 10415 none) nil
build_3gpp_children ussd2 = cons (locked_leaf "USSD-Information" 885 10415 none) nil

unfoldable pub build_huawei_children : ServiceType → AvpTree
build_huawei_children voice =
    cons
      (locked_group "IN-Information" 20300 2011 (
        forest (
          in_leaf "Calling-Party-Address" 20336 "CALLING_PARTY_ADDRESS"
          ∷ in_leaf "Called-Party-Address" 20337 "CALLED_PARTY_ADDRESS"
          ∷ in_leaf "Connect-Called-Number" 20373 "CALLED_PARTY_ADDRESS"
          ∷ in_leaf "Charge-Flow-Type" 20339 "CHARGE_FLOW_TYPE"
          ∷ in_leaf "Called-Vlr-Number" 20305 "27812022024"
          ∷ in_leaf "Called-CellID-Or-SAI" 20306 "655020010965535"
          ∷ in_leaf "MSC-Address" 20322 "27812020002"
          ∷ in_leaf "Time-Zone" 20324 "32"
          ∷ in_leaf "Call-Reference-Number" 20321 "A7ED8D101D"
          ∷ in_leaf "Calling-Parties-Category" 20301 "165"
          ∷ in_leaf "Access-Network-Type" 20804 "200"
          ∷ in_leaf "Called-Msc-Address" 21172 "27812020002"
          ∷ in_leaf "Called-Party-Address-Nature" 21163 "4"
          ∷ in_leaf "Address-Of-Restricted-Indicator" 21121 "0"
          ∷ in_leaf "Service-Key" 20806 "91"
          ∷ in_leaf "New-SSP-Time" 22992 "2026-05-07T15:07:23+02:00"
          ∷ [])))
      nil
build_huawei_children data_service = cons (locked_leaf "PS-Information" 874 10415 none) nil
build_huawei_children sms = cons (locked_leaf "SMS-Information" 20327 2011 none) nil
build_huawei_children ussd1 = cons (locked_leaf "DCD-Information" 20337 2011 none) nil
build_huawei_children ussd2 = cons (locked_leaf "DCD-Information" 20337 2011 none) nil

abbrev is_huawei : ServiceProfile → Bool
is_huawei huawei = true
is_huawei three_gpp = false

-- `children.length === 0` gives `null`.
abbrev pub service_info_group : AvpTree → Option AvpNode
service_info_group nil = none
service_info_group (cons n ns) = some (locked_group "Service-Information" 873 10415 (cons n ns))

unfoldable pub build_service_info_node : Option ServiceType → Option ServiceProfile → Option AvpNode
unfolding build_3gpp_children build_huawei_children
build_service_info_node none profile = none
build_service_info_node (some t) profile = service_info_group (
    if is_huawei (or_else profile three_gpp)
    then build_huawei_children t
    else build_3gpp_children t)

abbrev pub is_service_info : AvpNode → Bool
is_service_info n = str_eq (info n).name "Service-Information"

-- Replace the first node by that name, or append one.
unfoldable pub put_service_info : AvpNode → AvpTree → AvpTree
put_service_info node nil = cons node nil
put_service_info node (cons n ns) =
    if is_service_info n then cons node ns else cons n (put_service_info node ns)

-- Drop the first node by that name, if there is one.
unfoldable pub drop_service_info : AvpTree → AvpTree
drop_service_info nil = nil
drop_service_info (cons n ns) = if is_service_info n then ns else cons n (drop_service_info ns)

abbrev replace_by : Option AvpNode → AvpTree → AvpTree
replace_by (some node) tree = put_service_info node tree
replace_by none tree = drop_service_info tree

unfoldable pub replace_service_info_node :
    AvpTree → Option ServiceType → Option ServiceProfile → AvpTree
unfolding put_service_info drop_service_info build_service_info_node
replace_service_info_node tree type profile = replace_by (build_service_info_node type profile) tree
