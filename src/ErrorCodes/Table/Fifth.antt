-- ===== src/ErrorCodes/Table/Fifth.antt =====
-- The assignments of lines 494 to 614 of framework/error_codes.py.
use functional_tests.Base.{List, [], ◌∷◌}
use functional_tests.ErrorCodes.{Code, assign}

abbrev pub fifth_codes : List Code
fifth_codes =
    assign "DATEDIFF_MISSING_UNIT_ERROR" 5166305 494
    ∷ assign "INVALID_DATE_VALUE_ERROR" 5166307 495
    ∷ assign "DATEADD_UNKNOWN_FIELD_ERROR" 5166401 496
    ∷ assign "DATEADD_MISSING_FIELD_ERROR" 5166402 497
    ∷ assign "DATEADD_INVALID_STARTDATE_ERROR" 5166403 498
    ∷ assign "DATEADD_INVALID_UNIT_TYPE_ERROR" 5166404 499
    ∷ assign "DATEADD_INVALID_AMOUNT_ERROR" 5166405 500
    ∷ assign "DATEADD_OVERFLOW_ERROR" 5166406 501
    ∷ assign "DROP_DATABASE_VALUE_ERROR" 5255100 502
    ∷ assign "RANK_STYLE_WINDOW_EXTRA_ARGS_ERROR" 5371601 503
    ∷ assign "RANK_STYLE_WINDOW_SORTBY_ONE_ELEMENT_ERROR" 5371602 504
    ∷ assign "RANK_STYLE_WINDOW_NON_EMPTY_ARG_ERROR" 5371603 505
    ∷ assign "DATETRUNC_BINSIZE_OVERFLOW_HOUR_ERROR" 5439002 506
    ∷ assign "DATETRUNC_BINSIZE_OVERFLOW_YEAR_ERROR" 5439006 507
    ∷ assign "DATETRUNC_NON_OBJECT_ERROR" 5439007 508
    ∷ assign "DATETRUNC_UNKNOWN_FIELD_ERROR" 5439008 509
    ∷ assign "DATETRUNC_MISSING_DATE_ERROR" 5439009 510
    ∷ assign "DATETRUNC_MISSING_UNIT_ERROR" 5439010 511
    ∷ assign "INVALID_DATE_UNIT_ERROR" 5439013 512
    ∷ assign "INVALID_STARTOFWEEK_TYPE_ERROR" 5439015 513
    ∷ assign "INVALID_STARTOFWEEK_ERROR" 5439016 514
    ∷ assign "DATETRUNC_INVALID_BINSIZE_ERROR" 5439017 515
    ∷ assign "DATETRUNC_INVALID_BINSIZE_VALUE_ERROR" 5439018 516
    ∷ assign "COLLSTATS_ARG_NOT_OBJECT_ERROR" 5447000 517
    ∷ assign "NEAR_NOT_ALLOWED_ERROR" 5626500 518
    ∷ assign "GEO_NEAR_KEY_DEPTH_LIMIT_ERROR" 5729100 519
    ∷ assign "DENSIFY_RANGE_BOUNDS_TYPE_ERROR" 5733402 520
    ∷ assign "MODULO_DECIMAL128_ZERO_REMAINDER_ERROR" 5733415 521
    ∷ assign "MERGE_INTO_EMPTY_STRING_ERROR" 5786800 522
    ∷ assign "MERGE_INTO_COLL_NULL_ERROR" 5786801 523
    ∷ assign "N_ACCUMULATOR_MISSING_N_FIRSTN_FAMILY_ERROR" 5787906 524
    ∷ assign "N_ACCUMULATOR_MISSING_N_TOPN_FAMILY_ERROR" 5788003 525
    ∷ assign "GEO_NEAR_NEAR_REQUIRED_ERROR" 5860400 526
    ∷ assign "GEO_NEAR_NEAR_TYPE_ERROR" 5860401 527
    ∷ assign "GEO_NEAR_NEAR_NOT_CONSTANT_ERROR" 5860402 528
    ∷ assign "SET_EQUALS_LITERAL_NON_ARRAY_ERROR" 5887502 529
    ∷ assign "CLUSTERED_RECORD_ID_SIZE_ERROR" 5894900 530
    ∷ assign "MERGE_OBJECTS_NON_OBJECT_ERROR" 5911200 531
    ∷ assign "DATEADD_INVALID_LARGE_VALUE_ERROR" 5976500 532
    ∷ assign "CLUSTERED_INDEX_UNIQUE_REQUIRED_ERROR" 5979700 533
    ∷ assign "CLUSTERED_INDEX_LEGACY_FORMAT_ERROR" 5979703 534
    ∷ assign "CLUSTERED_INDEX_INVALID_VERSION_ERROR" 5979704 535
    ∷ assign "CLUSTERED_INDEX_DROP_ERROR" 5979800 536
    ∷ assign "FIELD_PATH_DEPTH_LIMIT_ERROR" 5984700 537
    ∷ assign "CLUSTERED_INDEX_HIDE_ERROR" 6011800 538
    ∷ assign "CLUSTERED_INDEX_VIEW_CONFLICT_ERROR" 6026500 539
    ∷ assign "DATEADD_INT64_MIN_NEGATE_ERROR" 6045000 540
    ∷ assign "CLUSTERED_INDEX_CAPPED_CONFLICT_ERROR" 6049200 541
    ∷ assign "CLUSTERED_INDEX_MAX_CONFLICT_ERROR" 6049204 542
    ∷ assign "CHANGE_STREAM_SPEC_NOT_OBJECT_ERROR" 6188500 543
    ∷ assign "ENCRYPTED_FIELD_EMPTY_PATH_ERROR" 6316402 544
    ∷ assign "ENCRYPTED_FIELD_ID_PATH_ERROR" 6316403 545
    ∷ assign "ENCRYPTED_FIELD_DUPLICATE_PATH_ERROR" 6338402 546
    ∷ assign "ENCRYPTED_FIELD_UNSUPPORTED_TYPE_ERROR" 6338406 547
    ∷ assign "ENCRYPTED_FIELD_VIEW_TIMESERIES_ERROR" 6346401 548
    ∷ assign "NOT_ENCRYPTED_COLLECTION_ERROR" 6346807 549
    ∷ assign "ENCRYPTED_FIELD_CAPPED_ERROR" 6367301 550
    ∷ assign "APPLYOPS_PRECONDITION_NOT_SUPPORTED_ERROR" 6711600 551
    ∷ assign "APPLYOPS_ALWAYS_UPSERT_NOT_SUPPORTED_ERROR" 6711601 552
    ∷ assign "ENCRYPTED_FIELD_RANGE_MIN_MAX_ERROR" 6720005 553
    ∷ assign "ENCRYPTED_FIELD_RANGE_TYPE_ERROR" 6775201 554
    ∷ assign "ENCRYPTED_FIELD_RANGE_MIN_MAX_TYPE_ERROR" 7018200 555
    ∷ assign "WILDCARD_MULTIPLE_FIELDS_ERROR" 7246201 556
    ∷ assign "WILDCARD_STRING_TYPE_ERROR" 7246202 557
    ∷ assign "WILDCARD_COMPOUND_PREFIX_NOT_EXCLUDED_ERROR" 7246209 558
    ∷ assign "WILDCARD_COMPOUND_PREFIX_MULTIKEY_ERROR" 7246301 559
    ∷ assign "OUT_TIMESERIES_COLLECTION_TYPE_ERROR" 7268700 560
    ∷ assign "MISSING_COMPACT_TOKEN_ERROR" 7294900 561
    ∷ assign "FCV_CONFIRM_REQUIRED_ERROR" 7369100 562
    ∷ assign "OUT_TIMESERIES_OPTIONS_MISMATCH_ERROR" 7406103 563
    ∷ assign "SORT_DUPLICATE_KEY_ERROR" 7472500 564
    ∷ assign "N_ACCUMULATOR_INVALID_N_ERROR" 7548606 565
    ∷ assign "GEO_NEAR_MIN_DISTANCE_NOT_CONSTANT_ERROR" 7555701 566
    ∷ assign "GEO_NEAR_MAX_DISTANCE_NOT_CONSTANT_ERROR" 7555702 567
    ∷ assign "QUERYSETTINGS_UNKNOWN_COMMAND_SHAPE_ERROR" 7746402 568
    ∷ assign "QUERYSETTINGS_REJECT_ONLY_ERROR" 7746604 569
    ∷ assign "QUERYSETTINGS_IDHACK_QUERY_ERROR" 7746606 570
    ∷ assign "QUERYSETTINGS_NON_DOCUMENT_ARG_ERROR" 7746800 571
    ∷ assign "PIPELINE_LENGTH_LIMIT_ERROR" 7749501 572
    ∷ assign "PERCENTILE_INVALID_P_FIELD_ERROR" 7750301 573
    ∷ assign "PERCENTILE_INVALID_P_VALUE_ERROR" 7750303 574
    ∷ assign "VECTOR_SEARCH_LIMIT_NOT_POSITIVE_ERROR" 7912700 575
    ∷ assign "ENCRYPTED_FIELD_TRIM_FACTOR_OUT_OF_RANGE_ERROR" 8574000 576
    ∷ assign "VECTOR_SEARCH_LIMIT_NOT_NUMBER_ERROR" 8575100 577
    ∷ assign "QUERYSETTINGS_INTERNAL_DB_ERROR" 8584900 578
    ∷ assign "QUERYSETTINGS_NS_DB_MISSING_ERROR" 8727500 579
    ∷ assign "QUERYSETTINGS_NS_COLL_MISSING_ERROR" 8727501 580
    ∷ assign "QUERYSETTINGS_EMPTY_SETTINGS_ERROR" 8727502 581
    ∷ assign "COUNT_FIELD_ID_RESERVED_ERROR" 9039800 582
    ∷ assign "CONVERT_BYTE_ORDER_TYPE_ERROR" 9130001 583
    ∷ assign "CONVERT_BYTE_ORDER_VALUE_ERROR" 9130002 584
    ∷ assign "RANK_FUSION_NO_RANKED_STAGE_OR_SORT_ERROR" 9191100 585
    ∷ assign "RANK_FUSION_NON_SELECTION_STAGE_ERROR" 9191103 586
    ∷ assign "RANK_FUSION_WEIGHT_NEGATIVE_ERROR" 9460300 587
    ∷ assign "RANK_FUSION_WEIGHT_COUNT_ERROR" 9460301 588
    ∷ assign "EMBEDDED_NULL_BYTE_ERROR" 9527900 589
    ∷ assign "NULL_CHAR_IN_FIELD_NAME_ERROR" 9534700 590
    ∷ assign "LIST_CLUSTER_CATALOG_COLLECTION_ERROR" 9621301 591
    ∷ assign "LIST_CLUSTER_CATALOG_NON_OBJECT_ERROR" 9621302 592
    ∷ assign "INDEX_OF_ARRAY_INDEX_NOT_INTEGRAL_ERROR" 9711600 593
    ∷ assign "INDEX_OF_ARRAY_INDEX_NEGATIVE_ERROR" 9711601 594
    ∷ assign "ENCRYPTED_FIELD_TEXT_SEARCH_TYPE_ERROR" 9783400 595
    ∷ assign "ENCRYPTED_FIELD_MISSING_STR_MIN_QUERY_LENGTH_ERROR" 9783402 596
    ∷ assign "ENCRYPTED_FIELD_MISSING_STR_MAX_QUERY_LENGTH_ERROR" 9783403 597
    ∷ assign "ENCRYPTED_FIELD_MISSING_CASE_SENSITIVE_ERROR" 9783404 598
    ∷ assign "ENCRYPTED_FIELD_MISSING_DIACRITIC_SENSITIVE_ERROR" 9783405 599
    ∷ assign "ENCRYPTED_FIELD_STR_LENGTH_ERROR" 9783406 600
    ∷ assign "ENCRYPTED_FIELD_EMPTY_QUERIES_ERROR" 9783412 601
    ∷ assign "ENCRYPTED_FIELD_MAX_QUERY_TYPES_ERROR" 9783413 602
    ∷ assign "ENCRYPTED_FIELD_INVALID_QUERY_COMBO_ERROR" 9783414 603
    ∷ assign "RANK_FUSION_EMPTY_PIPELINE_ERROR" 9834300 604
    ∷ assign "NULL_BYTE_PATH_ERROR" 9867600 605
    ∷ assign "RANK_FUSION_WEIGHT_KEY_NO_MATCH_ERROR" 9967500 606
    ∷ assign "CLUSTER_TIME_NOT_AVAILABLE_ERROR" 10071200 607
    ∷ assign "RANK_FUSION_NOT_FIRST_STAGE_ERROR" 10170100 608
    ∷ assign "RANK_FUSION_NESTED_HYBRID_STAGE_ERROR" 10473002 609
    ∷ assign "SPLIT_DELIMITER_TYPE_ERROR" 10503900 610
    ∷ assign "REPLACE_FIND_TYPE_ERROR" 10503901 611
    ∷ assign "REPLACE_REPLACEMENT_TYPE_ERROR" 10503902 612
    ∷ assign "REPLACE_INPUT_TYPE_ERROR" 10503904 613
    ∷ assign "RANK_FUSION_TIMESERIES_UNSUPPORTED_ERROR" 10557301 614
    ∷ []
