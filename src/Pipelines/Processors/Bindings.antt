-- ===== src/Pipelines/Processors/Bindings.antt =====
-- The attributes of the core processors. A float stands as the exact fraction that the literal
-- denotes.
use scene_api.Base.{ℕ, true, false, none, some, List, [], ◌∷◌}
use scene_api.Db.{Json}
use scene_api.Number.{Number}
use scene_api.Attributes.{Attribute, AttributeType}

abbrev int_of : ℕ → Number
int_of n = record { is_float = false; negative = false; magnitude = n; halvings = 0 }

abbrev pub feature_attributes : List Attribute
feature_attributes =
    record {
      name = "type";
      kind = AttributeType.enum;
      required = false;
      default = some (Json.text "sift");
      enum = "sift" ∷ "superpoint" ∷ "aliked" ∷ "disk" ∷ "r2d2" ∷ "d2net" ∷ "sosnet" ∷ [];
      min = none;
      max = none;
      datatype_lookup = none;
    }
    ∷ record {
      name = "max_num_features";
      kind = AttributeType.int;
      required = false;
      default = some (Json.number (int_of 8192));
      enum = [];
      min = some (int_of 0);
      max = none;
      datatype_lookup = none;
    }
    ∷ record {
      name = "use_gpu";
      kind = AttributeType.bool;
      required = false;
      default = some (Json.bool true);
      enum = [];
      min = none;
      max = none;
      datatype_lookup = none;
    }
    ∷ record {
      name = "seed";
      kind = AttributeType.int;
      required = false;
      default = some (Json.number (int_of 0));
      enum = [];
      min = none;
      max = none;
      datatype_lookup = none;
    }
    ∷ []

abbrev pub pair_attributes : List Attribute
pair_attributes =
    record {
      name = "strategy";
      kind = AttributeType.enum;
      required = false;
      default = some (Json.text "exhaustive");
      enum =
          "exhaustive" ∷ "sequential" ∷ "spatial" ∷ "vocabtree" ∷ "retrieval" ∷ "from_poses"
          ∷ "explicit" ∷ [];
      min = none;
      max = none;
      datatype_lookup = none;
    }
    ∷ record {
      name = "overlap";
      kind = AttributeType.int;
      required = false;
      default = some (Json.number (int_of 10));
      enum = [];
      min = some (int_of 0);
      max = none;
      datatype_lookup = none;
    }
    ∷ record {
      name = "retrieval_k";
      kind = AttributeType.int;
      required = false;
      default = some (Json.number (int_of 20));
      enum = [];
      min = some (int_of 1);
      max = none;
      datatype_lookup = none;
    }
    ∷ []

abbrev pub match_attributes : List Attribute
match_attributes =
    record {
      name = "type";
      kind = AttributeType.enum;
      required = false;
      default = some (Json.text "nn-mutual");
      enum = "nn-mutual" ∷ "nn-ratio" ∷ "superglue" ∷ "lightglue" ∷ "loftr" ∷ "mast3r" ∷ [];
      min = none;
      max = none;
      datatype_lookup = none;
    }
    ∷ record {
      name = "use_gpu";
      kind = AttributeType.bool;
      required = false;
      default = some (Json.bool true);
      enum = [];
      min = none;
      max = none;
      datatype_lookup = none;
    }
    ∷ record {
      name = "cross_check";
      kind = AttributeType.bool;
      required = false;
      default = some (Json.bool true);
      enum = [];
      min = none;
      max = none;
      datatype_lookup = none;
    }
    ∷ record {
      name = "max_ratio";
      kind = AttributeType.float;
      required = false;
      default = some (
          Json.number (record {
            is_float = true;
            negative = false;
            magnitude = 3602879701896397;
            halvings = 52;
          }));
      enum = [];
      min = some (record { is_float = true; negative = false; magnitude = 0; halvings = 0 });
      max = some (record { is_float = true; negative = false; magnitude = 1; halvings = 0 });
      datatype_lookup = none;
    }
    ∷ record {
      name = "max_distance";
      kind = AttributeType.float;
      required = false;
      default = some (
          Json.number (record {
            is_float = true;
            negative = false;
            magnitude = 3152519739159347;
            halvings = 52;
          }));
      enum = [];
      min = some (record { is_float = true; negative = false; magnitude = 0; halvings = 0 });
      max = none;
      datatype_lookup = none;
    }
    ∷ []

abbrev pub verify_attributes : List Attribute
verify_attributes =
    record {
      name = "use_gpu";
      kind = AttributeType.bool;
      required = false;
      default = some (Json.bool true);
      enum = [];
      min = none;
      max = none;
      datatype_lookup = none;
    }
    ∷ record {
      name = "min_inlier_ratio";
      kind = AttributeType.float;
      required = false;
      default =
          some (
            Json.number
              (record { is_float = true; negative = false; magnitude = 1; halvings = 2 }));
      enum = [];
      min = some (record { is_float = true; negative = false; magnitude = 0; halvings = 0 });
      max = some (record { is_float = true; negative = false; magnitude = 1; halvings = 0 });
      datatype_lookup = none;
    }
    ∷ []

abbrev pub map_attributes : List Attribute
map_attributes =
    record {
      name = "kind";
      kind = AttributeType.enum;
      required = false;
      default = some (Json.text "incremental");
      enum = "incremental" ∷ "global" ∷ "hierarchical" ∷ "spherical" ∷ [];
      min = none;
      max = none;
      datatype_lookup = none;
    }
    ∷ record {
      name = "seed";
      kind = AttributeType.int;
      required = false;
      default = some (Json.number (int_of 0));
      enum = [];
      min = none;
      max = none;
      datatype_lookup = none;
    }
    ∷ record {
      name = "max_runtime_seconds";
      kind = AttributeType.int;
      required = false;
      default = none;
      enum = [];
      min = some (int_of 1);
      max = none;
      datatype_lookup = none;
    }
    ∷ []

abbrev pub map_feed_forward_attributes : List Attribute
map_feed_forward_attributes =
    record {
      name = "seed";
      kind = AttributeType.int;
      required = false;
      default = some (Json.number (int_of 0));
      enum = [];
      min = none;
      max = none;
      datatype_lookup = none;
    }
    ∷ record {
      name = "max_runtime_seconds";
      kind = AttributeType.int;
      required = false;
      default = none;
      enum = [];
      min = some (int_of 1);
      max = none;
      datatype_lookup = none;
    }
    ∷ []

abbrev pub refine_attributes : List Attribute
refine_attributes =
    record {
      name = "mode";
      kind = AttributeType.enum;
      required = false;
      default = some (Json.text "standard");
      enum = "standard" ∷ "two_stage" ∷ "featuremetric" ∷ "rig" ∷ [];
      min = none;
      max = none;
      datatype_lookup = none;
    }
    ∷ record {
      name = "max_num_iterations";
      kind = AttributeType.int;
      required = false;
      default = some (Json.number (int_of 100));
      enum = [];
      min = some (int_of 1);
      max = none;
      datatype_lookup = none;
    }
    ∷ []
